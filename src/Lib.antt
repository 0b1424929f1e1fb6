-- ===== src/Lib.antt =====
-- HomeStock keeps the stock of a household: a server in Go and a client in TypeScript. This library
-- models the client, web/src, and proves what makes its parts correct. The server's replies are
-- arbitrary: what is proved of the client holds whatever the server sends.
--
-- How the parts interact. A page of the client keeps its state in React's state, changes it in the
-- handlers of its events, and asks the server through the functions of web/src/api, which all go
-- through `request` of web/src/lib/api.ts. A handler is an `async` function: between two of its
-- `await`s other handlers run. A reply with the status 401 makes `request` dispatch an event that
-- the session's store listens to.
--
-- Which file models what:
--   Common, Js: shared names and lemmas, the stable sort; strings as UTF-16 code units with `trim`
--     and `includes`, numbers, thrown errors, dates, and the record `Host` of what the browser, the
--     machine's arithmetic and i18next give.
--   Format: web/src/lib/format.ts. Ui: the tables, badges and forms that the views consist of.
--   Types, Types/Status: web/src/types, with `getInventoryStatus` of web/src/types/material.ts.
--   Api: the calls that web/src/api makes, one constructor for each function, and their replies.
--   Http: web/src/lib/api.ts (`request`); Http/Query, Http/Requests and Http/Replies: web/src/api.
--   Async: `async` functions as data: updates of the state, calls, handlers started without waiting.
--     Async/Rules: what holds where a handler ends, what follows the reply to its first call, and
--     what holds of the calls that it makes, whatever other handlers do to the state while it waits.
--     Async/Promise: `Promise.all` as one call, which comes to the values of its calls, or to the
--     error of the one that fails first in time. Async/Pool: a component at work, its events, its
--     waiting handlers and the replies, in any order, as a step relation with reachability;
--     Drain, Schedule and Rest: the end of the waiting handlers, and the time when none waits.
--   Auth: web/src/store/authStore.ts, web/src/components/auth/ProtectedRoute.tsx and
--     web/src/pages/auth/LoginPage.tsx (View: what it shows). A reply with the status 401
--     to any request is an event of its own; Restore has one that answers `me`.
--   Layout: the routes of web/src/App.tsx, and the side bar and the header of
--     web/src/components/layout. Language: web/src/i18n, without its texts.
--   Dashboard: web/src/hooks/useDashboardStats.ts. Home: web/src/pages/home/HomePage.tsx.
--   Inventory/Page: web/src/pages/inventory/InventoryPage.tsx (`loadData`, pagination, selection;
--     Handlers: `handleInbound`, `handleUpdateLot`, `handleAdjustLot`, `handleConsume`; Events: what
--     the rendered page offers, its dialogs included, and what each event does). Inventory/Shell:
--     the `try` that the four dialogs with a form share. Inventory/InboundLotDialog, EditLotDialog,
--     AdjustLotDialog, ConsumeMaterialDialog, ExpiringLotsDialog,
--     LotDetailsDialog, DeleteConfirmDialog: the dialogs of the same names. The page's child modules
--     Initial, Locations and View are its first render, its select of locations, and what it shows;
--     a dialog's View is what the dialog shows. Search puts the debounce hook and the page together;
--     LoadResult is about one load, and Submissions about the dialogs' handlers with the page's.
--   History: web/src/pages/history/HistoryPage.tsx (Events, View).
--   Shopping: web/src/pages/shopping/ShoppingPage.tsx (View: what it shows).
--   Stores: web/src/store/themeStore.ts, web/src/hooks/useTheme.ts and web/src/store/appStore.ts.
--   Debounce: web/src/hooks/useDebounce.ts.
--   Settings: the choice of a section and the five sections of web/src/pages/settings, each with its
--     events and its View.
--   Tests: sample data, a host whose functions compute, and each law at a concrete input.
--
-- Bounds. Numbers of items and pages are natural numbers, far below 2^53 in the client. A quantity
-- is a double, as a whole multiple of the least positive one; sums go through the rounding of the
-- host. Times are whole milliseconds, and a reminder is a whole number of days. No definition takes
-- fuel: loops go through the lists that they are given, and a handler is a finite program.
--
-- What is not modelled: the server in Go; styles, icons, and the texts of the two languages; the
-- widgets of web/src/components/ui, which wrap a library; the router's choice of a route;
-- optional arguments of web/src/api that no caller gives, and results that no caller reads.
-- `fetch`, JSON, percent-encoding, dates, their printing, translations and `localStorage` are
-- parameters, or a record of what the client sees of them.
pub mod Common
pub mod Js
pub mod Types
pub mod Api
pub mod Async
pub mod Http
pub mod Auth
pub mod Format
pub mod Ui
pub mod Dashboard
pub mod Home
pub mod Language
pub mod Layout
pub mod Inventory
pub mod History
pub mod Shopping
pub mod Stores
pub mod Debounce
pub mod Settings
pub mod Tests
