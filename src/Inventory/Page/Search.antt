-- ===== src/Inventory/Page/Search.antt =====
-- The search of web/src/pages/inventory/InventoryPage.tsx: what is typed goes to the page at once,
-- and through the debounce hook to the filters that the page loads with.
pub mod Laws
use home_stock.Common.{ℕ, ◌+◌, List, [], ◌∷◌}
use home_stock.Js.Text.{Text}
use home_stock.Js.Host.{Host}
use home_stock.Debounce.{Debounce, changed, tick, first_render}
use home_stock.Async.Pool.{Config, fire}
use home_stock.Inventory.Page.{InventoryPage}
use home_stock.Inventory.Page.Initial.{initial_page, initial_search}
use home_stock.Inventory.Page.Events.{search_typed, search_settled, mounted, inventory_page}

pub record Searching : Type 0 where
  pub page : Config InventoryPage
  pub timer : Debounce Text

-- `useDebounce(search, 300)`
abbrev pub search_delay : ℕ
search_delay = 300

module _ (host : Host) where
  -- The page as soon as it is open, at an address with this query string.
  unfoldable pub searching : Text → ℕ → Searching
  searching search now = record {
    page =
        fire (inventory_page host) (record { state = initial_page host search; waiting = [] })
          mounted;
    timer = first_render search_delay (initial_search host search) now;
  }

  -- It is now: if the timer was due, the page is rendered with the debounced text.
  unfoldable pub settle_at : ℕ → Searching → Searching
  settle_at now x =
      let d = tick now x.timer in
      record { page = fire (inventory_page host) x.page (search_settled d.debounced); timer = d }

  -- A change of the text, and the effect of the hook after the next render.
  unfoldable pub typed : ℕ → Text → Searching → Searching
  unfolding settle_at
  typed now v x =
      let y = settle_at now x in
      record {
        page = fire (inventory_page host) y.page (search_typed v);
        timer = changed search_delay v now y.timer;
      }

  -- Texts one after the other, each with the time since the one before it.
  unfoldable pub typing : ℕ → List (Text × ℕ) → Searching → Searching
  unfolding typed
  typing now [] x = x
  typing now ((v, gap) ∷ rest) x = typing (now + gap) rest (typed (now + gap) v x)
