-- ===== src/Inventory/Page.antt =====
-- web/src/pages/inventory/InventoryPage.tsx: the page's state, what it derives from it, and
-- `loadData`.
pub mod Handlers
pub mod Submissions
pub mod Events
pub mod Pagination
pub mod Locations
pub mod View
pub mod Initial
pub mod Search
pub mod Loading
pub mod LoadResult
use Prim.Native.Nat.{max}
use home_stock.Common.{
  ℕ, ◌+◌, ◌-◌, ◌*◌, ◌/◌, Option, none, some, Bool, true, false, not, ◌&&◌, List, [], ◌∷◌, map,
  if◌then◌else◌, length, slice, filter, any, find, ◌==◌,
}
use mathlib.Core.Option
use home_stock.Js.Text.{Text, lit, truthy, eq_text, or_none}
use home_stock.Js.Host.{Host}
use home_stock.Js.Outcome.{Thrown, message_or}
use home_stock.Types.{Category, MaterialSummary, StockLot}
use home_stock.Api.{MaterialQuery, StockLotQuery, list_materials, list_lots, list_categories}
use home_stock.Async.{Async, ◌>>=◌, ◌>>◌, call_three, catch, finally, update}
use home_stock.Inventory.InboundLotDialog.{InboundLotDialog}
use home_stock.Inventory.InboundLotDialog
use home_stock.Inventory.EditLotDialog.{EditLotDialog}
use home_stock.Inventory.AdjustLotDialog.{AdjustLotDialog}
use home_stock.Inventory.ConsumeMaterialDialog.{ConsumeMaterialDialog}
use home_stock.Inventory.ExpiringLotsDialog.{ExpiringLotsDialog}

-- What `loadData` captures from the render that made it.
pub record Filters : Type 0 where
  pub category_filter : Text
  pub location_filter : Text
  pub debounced_search : Text
  pub show_zero_stock : Bool

pub record InventoryPage : Type 0 where
  pub materials : List MaterialSummary
  pub lots : List StockLot
  pub categories : List Category
  pub selected_material_id : Text
  pub loading : Bool
  pub error : Text
  pub search : Text
  pub filters : Filters
  pub expiring_open : Bool
  pub inbound_open : Bool
  pub editing_lot : Option StockLot
  pub adjusting_lot : Option StockLot
  pub lot_details_open : Bool
  -- the switch of the details dialog
  pub details_zero_stock : Bool
  pub consuming_material : Option MaterialSummary
  pub page : ℕ
  -- the dialogs' own states
  pub inbound : InboundLotDialog
  pub edit : EditLotDialog
  pub adjust : AdjustLotDialog
  pub consume : ConsumeMaterialDialog
  pub expiring : ExpiringLotsDialog

abbrev pub page_size : ℕ
page_size = 10

-- `Math.max(1, Math.ceil(materials.length / pageSize))`
unfoldable pub total_pages : {A : Type 0} → List A → ℕ
total_pages materials = max 1 ((length materials + (page_size - 1)) / page_size)

unfoldable pub paginated : {A : Type 0} → ℕ → List A → List A
paginated page materials = slice ((page - 1) * page_size) (page * page_size) materials

-- `v !== '__all__' ? v : undefined`
abbrev pub unless_all : Text → Option Text
unless_all v = if eq_text v (lit "__all__") then none else some v

-- `b || undefined`
abbrev pub true_or_none : Bool → Option Bool
true_or_none b = if b then some true else none

unfoldable pub material_query : Filters → MaterialQuery
material_query f = record {
  category_id = unless_all f.category_filter;
  keyword = or_none f.debounced_search;
  show_zero_stock = true_or_none f.show_zero_stock;
}

unfoldable pub lot_query : Filters → StockLotQuery
lot_query f = record {
  material_id = none;
  category_id = unless_all f.category_filter;
  location = unless_all f.location_filter;
  status = none;
  keyword = or_none f.debounced_search;
  expiring_soon = none;
  show_zero_stock = true_or_none f.show_zero_stock;
}

-- `lotMaterialIDs.has(id)`
abbrev pub has_lot : List StockLot → Text → Bool
has_lot lots id = any (λ lot. eq_text lot.material_id id) lots

unfoldable pub next_materials :
    Filters → List MaterialSummary → List StockLot → List MaterialSummary
next_materials f materials lots =
    if eq_text f.location_filter (lit "__all__")
    then materials
    else filter (λ m. has_lot lots m.id) materials

abbrev pub has_material : List MaterialSummary → Text → Bool
has_material materials id = any (λ m. eq_text m.id id) materials

abbrev first_id : List MaterialSummary → Text
first_id [] = []
first_id (m ∷ ms) = m.id

unfoldable pub next_selected : List MaterialSummary → Text → Text
next_selected materials current =
    if has_material materials current then current else first_id materials

unfoldable pub selected_material : InventoryPage → Option MaterialSummary
selected_material s = find (λ m. eq_text m.id s.selected_material_id) s.materials

unfoldable pub selected_lots : InventoryPage → List StockLot
selected_lots s = filter (λ lot. eq_text lot.material_id s.selected_material_id) s.lots

-- The effect of the inbound dialog, which runs while it is open.
unfoldable pub reopen_inbound : Host → InventoryPage → InventoryPage
reopen_inbound host s = record s {
  inbound =
      let m = selected_material s in
      InboundLotDialog.on_open host.language host.today s.inbound_open s.categories
        (Option.map (λ x. x.name) m) (Option.map (λ x. x.spec) m) s.inbound;
}

-- The updates after the three replies, with the effects that they bring on: the page returns to 1 if
-- the number of materials has changed, and an open inbound dialog sees new categories.
unfoldable pub loaded :
    Host
    → Filters
    → List MaterialSummary
    → List StockLot
    → List Category
    → InventoryPage
    → InventoryPage
unfolding reopen_inbound next_materials next_selected
loaded host f materials lots categories s =
    let next = next_materials f materials lots in
    reopen_inbound host (record s {
      materials = next;
      lots = lots;
      categories = categories;
      selected_material_id = next_selected next s.selected_material_id;
      page = if length next == length s.materials then s.page else 1;
    })

-- `loadData`: what stands in the `try`, and the whole.
unfoldable pub load_body : Host → Filters → Async InventoryPage (Unit {0})
load_body host f = do
  (m, (l, c)) ←
      call_three (list_materials (material_query f)) (list_lots (lot_query f)) list_categories
  update (loaded host f m.materials l.lots c.categories)

abbrev pub load_failed : Host → Thrown → InventoryPage → InventoryPage
load_failed host e s = record s { error = message_or (host.translate "loadingFailed") e }

unfoldable pub load_data : Host → Filters → Async InventoryPage (Unit {0})
unfolding load_body
load_data host f = do
  update (λ s. record s { loading = true; error = [] })
  finally (catch (load_body host f) (λ e. update (load_failed host e)))
      (λ s. record s { loading = false })
