-- ===== src/Inventory/Page/View.antt =====
-- What the inventory page shows: the options of its filters, its table with the links to the pages,
-- and the dialogs that are open.
pub mod Laws
use home_stock.Common.{
  ℕ, zero, suc, ◌+◌, ℤ, Option, none, some, Bool, true, false, not, ◌&&◌, List, [], ◌∷◌, map,
  if◌then◌else◌, filter, leb, ◌==◌,
}
use home_stock.Js.Text.{Text, lit, or_text, or_none}
use home_stock.Js.Number.{zero_number, lt_number, eq_number}
use home_stock.Js.Host.{Host}
use home_stock.Types.{Category, MaterialSummary, StockLot}
use home_stock.Types.Status.{InventoryStatus, normal, expiring, expired, get_inventory_status}
use home_stock.Ui.{BadgeVariant, Table, table_of, quantity_text, FormView}
use home_stock.Inventory.InboundLotDialog.View.{inbound_view}
use home_stock.Inventory.EditLotDialog.View.{edit_view}
use home_stock.Inventory.AdjustLotDialog.View.{adjust_view}
use home_stock.Inventory.ConsumeMaterialDialog.View.{consume_view}
use home_stock.Inventory.ExpiringLotsDialog.View.{ExpiringView, expiring_view}
use home_stock.Inventory.LotDetailsDialog.View.{
  LotDetailsView, details_view, shown_date, zero_badge,
}
use home_stock.Inventory.Page.{
  InventoryPage, total_pages, paginated, selected_material, selected_lots,
}
use home_stock.Inventory.Page.Locations.{location_options, format_locations}

unfoldable pub category_filter_options : Host → List Category → List (Text × Text)
category_filter_options host categories =
    (lit "__all__", host.translate "allCategories")
    ∷ map (λ category. (category.id, category.name)) categories

unfoldable pub location_filter_options : Host → List StockLot → List (Text × Text)
location_filter_options host lots =
    (lit "__all__", host.translate "allLocations")
    ∷ map (λ location. (location, location)) (location_options host lots)

-- `STATUS_MAP`, which the page's `StatusBadge` shows.
pub record StatusMeta : Type 0 where
  pub label : Text
  pub variant : BadgeVariant

unfoldable pub status_map : Host → InventoryStatus → StatusMeta
status_map host normal = record {
  label = host.translate "statusNormal";
  variant = BadgeVariant.default;
}
status_map host expiring = record {
  label = host.translate "statusExpiring";
  variant = BadgeVariant.outline;
}
status_map host expired = record {
  label = host.translate "statusExpired";
  variant = BadgeVariant.destructive;
}

pub record MaterialRow : Type 0 where
  pub is_faint : Bool
  pub name : Text
  pub spec : Text
  pub category : Text
  pub quantity : Text
  pub zero : Option Text
  pub lot_count : Text
  pub nearest_expiry : Text
  pub locations : Text
  pub status : StatusMeta

-- `material.category?.name ?? '-'`
abbrev pub category_name : Option Category → Text
category_name none = lit "-"
category_name (some c) = c.name

unfoldable pub material_row : Host → ℕ → ℤ → MaterialSummary → MaterialRow
unfolding status_map
material_row host remind now m = record {
  is_faint = eq_number m.total_quantity zero_number;
  name = m.name;
  spec = or_text m.spec (host.translate "common:noSpec");
  category = category_name m.category;
  quantity = quantity_text host m.total_quantity m.default_unit;
  zero = zero_badge host m.total_quantity;
  lot_count = host.text_of m.lot_count;
  nearest_expiry = shown_date host (lit "-") m.nearest_expire_at;
  locations = format_locations host m.locations;
  status = status_map host (get_inventory_status host remind now m.nearest_expire_at);
}

-- `Array.from({ length: n }, (_, i) => i + 1)`
unfoldable pub numbers : ℕ → ℕ → List ℕ
numbers from zero = []
numbers from (suc n) = (from + 1) ∷ numbers (from + 1) n

-- The links below the table: whether that to the previous and that to the next page is dead, and
-- the number of each page, with the mark of the one that is shown.
pub record PageLinks : Type 0 where
  pub previous_dead : Bool
  pub links : List (ℕ × Bool)
  pub next_dead : Bool

unfoldable pub page_links : ℕ → ℕ → PageLinks
unfolding numbers
page_links total page = record {
  previous_dead = leb page 1;
  links = map (λ num. (num, num == page)) (numbers 0 total);
  next_dead = leb total page;
}

abbrev is_normal : InventoryStatus → Bool
is_normal normal = true
is_normal _ = false

-- The lots of the dialog of those that expire.
unfoldable pub expiring_lots : Host → ℕ → ℤ → List StockLot → List StockLot
expiring_lots host remind now lots =
    filter
      (λ lot.
        lt_number zero_number lot.quantity_on_hand
        && not (is_normal (get_inventory_status host remind now lot.expire_at)))
      lots

-- The open dialogs.
pub record Dialogs : Type 0 where
  pub expiring : Option ExpiringView
  pub inbound : Option FormView
  pub edit : Option FormView
  pub adjust : Option FormView
  pub details : Option LotDetailsView
  pub consume : Option FormView

-- `selectedMaterial?.name ?? ''`
abbrev pub selected_name : Option MaterialSummary → Text
selected_name none = []
selected_name (some m) = m.name

abbrev pub shown_if : {A : Type 0} → Bool → A → Option A
shown_if is_open view = if is_open then some view else none

abbrev pub is_some : {A : Type 0} → Option A → Bool
is_some none = false
is_some (some x) = true

unfoldable pub dialogs : Host → ℕ → ℤ → InventoryPage → Dialogs
dialogs host remind now s = record {
  expiring =
      shown_if s.expiring_open
        (expiring_view host remind now s.expiring (expiring_lots host remind now s.lots));
  inbound = shown_if s.inbound_open (inbound_view host s.categories s.inbound);
  edit = shown_if (is_some s.editing_lot) (edit_view host s.edit);
  adjust = shown_if (is_some s.adjusting_lot) (adjust_view host s.adjusting_lot s.adjust);
  details = shown_if s.lot_details_open (
      details_view host remind now (selected_name (selected_material s)) s.details_zero_stock
        (selected_lots s));
  consume =
      shown_if (is_some s.consuming_material) (consume_view host s.consuming_material s.consume);
}

pub record InventoryView : Type 0 where
  pub category_options : List (Text × Text)
  pub location_options : List (Text × Text)
  pub is_spinning : Bool
  pub error : Option Text
  pub columns : List Text
  pub materials : Table MaterialRow
  pub page_links : PageLinks
  pub dialogs : Dialogs

unfoldable pub inventory_view : Host → ℕ → ℤ → InventoryPage → InventoryView
unfolding material_row
inventory_view host remind now s = record {
  category_options = category_filter_options host s.categories;
  location_options = location_filter_options host s.lots;
  is_spinning = s.loading;
  error = or_none s.error;
  columns = map host.translate (
      "colMaterial" ∷ "colCategory" ∷ "colTotalStock" ∷ "colLotCount" ∷ "colNearestExpiry"
      ∷ "colLocations" ∷ "colStatus" ∷ "colActions" ∷ []);
  materials =
      table_of (if s.loading then host.translate "common:loading" else host.translate "noMaterials")
        s.materials (material_row host remind now) (paginated s.page s.materials);
  page_links = page_links (total_pages s.materials) s.page;
  dialogs = dialogs host remind now s;
}
