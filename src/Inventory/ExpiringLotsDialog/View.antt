-- ===== src/Inventory/ExpiringLotsDialog/View.antt =====
-- What the dialog of web/src/pages/inventory/ExpiringLotsDialog.tsx shows while it is open.
use home_stock.Common.{
  ℕ, ℤ, Option, none, some, Bool, true, false, List, [], ◌∷◌, map, if◌then◌else◌,
}
use home_stock.Js.Text.{Text, lit, or_text, or_none, eq_text}
use home_stock.Js.Host.{Host}
use home_stock.Types.{Material, StockLot}
use home_stock.Types.Status.{InventoryStatus, expired, get_inventory_status}
use home_stock.Ui.{BadgeVariant, Table, table_of, quantity_text}
use home_stock.Inventory.ExpiringLotsDialog.{ExpiringLotsDialog}
use home_stock.Inventory.LotDetailsDialog.View.{shown_date}

-- `status === 'expired'`
abbrev pub is_expired : InventoryStatus → Bool
is_expired expired = true
is_expired _ = false

-- `id === lot.id`
abbrev pub is_of : Option Text → StockLot → Bool
is_of none lot = false
is_of (some id) lot = eq_text id lot.id

-- The cell of the expiry: an input with its value, or the date, which is red where it has passed.
pub data ExpiryCell : Type 0 where
  date_input : Text → ExpiryCell
  date_text : (is_red : Bool) → Text → ExpiryCell

-- The buttons of a row, and whether they are disabled.
pub data Actions : Type 0 where
  confirm_cancel edit_void : (disabled : Bool) → Actions

pub record ExpiringRow : Type 0 where
  pub name : Text
  pub spec : Text
  pub stock : Text
  pub location : Text
  pub expiry : ExpiryCell
  pub variant : BadgeVariant
  pub status : Text
  pub actions : Actions

pub record ExpiringView : Type 0 where
  pub title : Text
  pub description : Text
  pub error : Option Text
  pub columns : List Text
  pub lots : Table ExpiringRow

-- `lot.material?.name ?? '—'`, and `lot.material?.spec || ''`
abbrev pub name_of : Option Material → Text
name_of none = lit "—"
name_of (some m) = m.name

abbrev pub spec_of : Option Material → Text
spec_of none = []
spec_of (some m) = m.spec

module _ (host : Host) (remind : ℕ) (now : ℤ) (d : ExpiringLotsDialog) where
  unfoldable pub expiring_row : StockLot → ExpiringRow
  expiring_row lot =
      let status = get_inventory_status host remind now lot.expire_at in
      record {
        name = name_of lot.material;
        spec = spec_of lot.material;
        stock = quantity_text host lot.quantity_on_hand lot.unit;
        location = or_text lot.location (lit "—");
        expiry =
            if is_of d.editing_id lot
            then date_input d.edit_expire_at
            else date_text (is_expired status) (shown_date host (lit "—") lot.expire_at);
        variant = if is_expired status then BadgeVariant.destructive else BadgeVariant.outline;
        status =
            if is_expired status
            then host.translate "expiring_statusExpired"
            else host.translate "expiring_statusExpiring";
        actions =
            if is_of d.editing_id lot
            then confirm_cancel d.saving
            else edit_void (is_of d.voiding_id lot);
      }

  unfoldable pub expiring_view : List StockLot → ExpiringView
  unfolding expiring_row
  expiring_view lots = record {
    title = host.translate "expiring_title";
    description = host.translate "expiring_description";
    error = or_none d.error;
    columns = map host.translate (
        "expiring_colMaterial" ∷ "expiring_colStock" ∷ "expiring_colLocation" ∷ "expiring_colExpiry"
        ∷ "expiring_colStatus" ∷ "expiring_colActions" ∷ []);
    lots = table_of (host.translate "expiring_noLots") lots expiring_row lots;
  }
