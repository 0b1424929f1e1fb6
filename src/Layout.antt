-- ===== src/Layout.antt =====
-- web/src/components/layout/Sidebar.tsx, AppLayout.tsx and the routes of web/src/App.tsx. Icons and
-- styles are left out; which link is active is the router's.
pub mod Header
pub mod Laws
use home_stock.Common.{Option, none, some, Bool, true, false, List, [], ◌∷◌, map, if◌then◌else◌}
use home_stock.Js.Text.{Text, lit, eq_text}
use home_stock.Js.Host.{Host}
use home_stock.Auth.{Session, logout}
use home_stock.Stores.{AppState}

pub record NavItem : Type 0 where
  pub path : Text
  pub label : Text

unfoldable pub nav_items : Host → List NavItem
nav_items host =
    record { path = lit "/"; label = host.translate "home" }
    ∷ record { path = lit "/inventory"; label = host.translate "inventory" }
    ∷ record { path = lit "/shopping"; label = host.translate "shopping" }
    ∷ record { path = lit "/history"; label = host.translate "history" }
    ∷ record { path = lit "/settings"; label = host.translate "settings" }
    ∷ []

-- The session after a click on the button, and the path that `navigate` is called with.
unfoldable pub handle_logout : Session → Session × Text
handle_logout s = (logout s, lit "/login")

-- `collapsed ? label : undefined`
abbrev pub title_of : Bool → Text → Option Text
title_of collapsed label = if collapsed then some label else none

pub record SidebarLink : Type 0 where
  pub to : Text
  -- `end`: the link is active at its very path alone
  pub is_end : Bool
  pub title : Option Text
  pub label : Text

pub record SidebarView : Type 0 where
  pub subtitle : Text
  pub links : List SidebarLink
  pub logout_title : Option Text
  pub logout_label : Text

unfoldable pub sidebar_view : Host → AppState → SidebarView
sidebar_view host app = record {
  subtitle = host.translate "appSubtitle";
  links =
      map
        (λ item. record {
          to = item.path;
          is_end = eq_text item.path (lit "/");
          title = title_of app.collapsed item.label;
          label = item.label;
        })
        (nav_items host);
  logout_title = title_of app.collapsed (host.translate "logout");
  logout_label = host.translate "logout";
}

pub data Page : Type 0 where
  login_page home_page inventory_page shopping_page history_page settings_page : Page

-- The paths of the routes; all but the first are protected.
unfoldable pub routes : List (Text × Page)
routes =
    (lit "/login", login_page)
    ∷ (lit "/", home_page)
    ∷ (lit "/home", home_page)
    ∷ (lit "/inventory", inventory_page)
    ∷ (lit "/shopping", shopping_page)
    ∷ (lit "/history", history_page)
    ∷ (lit "/settings", settings_page)
    ∷ []

unfoldable pub is_protected : Page → Bool
is_protected login_page = false
is_protected _ = true
