-- ===== src/Inventory/LotDetailsDialog/View.antt =====
-- What the dialog of web/src/pages/inventory/LotDetailsDialog.tsx shows while it is open.
use home_stock.Common.{ℕ, ℤ, Option, none, some, Bool, List, [], ◌∷◌, map, if◌then◌else◌}
use home_stock.Js.Text.{Text, lit, truthy, or_text}
use home_stock.Js.Number.{Number, zero_number, eq_number}
use home_stock.Js.Host.{Host}
use home_stock.Format.{format_date}
use home_stock.Types.{StockLot}
use home_stock.Types.Status.{InventoryStatus, normal, expiring, expired, get_inventory_status}
use home_stock.Ui.{BadgeVariant, Table, table_of, quantity_text}
use home_stock.Inventory.LotDetailsDialog.{display_lots, has_switch}

-- `date ? formatDate(date, i18n.language) : dash`
unfoldable pub shown_date : Host → Text → Option Text → Text
unfolding format_date
shown_date host dash none = dash
shown_date host dash (some date) = if truthy date then format_date host date host.language else dash

unfoldable pub status_variant : InventoryStatus → BadgeVariant
status_variant expired = BadgeVariant.destructive
status_variant expiring = BadgeVariant.outline
status_variant normal = BadgeVariant.default

unfoldable pub status_label : Host → InventoryStatus → Text
status_label host normal = host.translate "statusNormal"
status_label host expiring = host.translate "statusExpiring"
status_label host expired = host.translate "statusExpired"

-- The badge beside a quantity of 0.
unfoldable pub zero_badge : Host → Number → Option Text
zero_badge host quantity =
    if eq_number quantity zero_number then some (host.translate "statusZero") else none

pub record LotRow : Type 0 where
  pub quantity : Text
  pub zero : Option Text
  pub location : Text
  pub purchased : Text
  pub expires : Text
  pub notes : Text
  pub variant : BadgeVariant
  pub status : Text

pub record LotDetailsView : Type 0 where
  pub title : Text
  pub consume_label : Text
  -- the label of the switch for the lots without stock, and whether it is on
  pub switch : Option (Text × Bool)
  pub columns : List Text
  pub lots : Table LotRow

module _ (host : Host) (remind : ℕ) (now : ℤ) where
  unfoldable pub lot_row : StockLot → LotRow
  unfolding shown_date zero_badge
  lot_row lot =
      let status = get_inventory_status host remind now lot.expire_at in
      record {
        quantity = quantity_text host lot.quantity_on_hand lot.unit;
        zero = zero_badge host lot.quantity_on_hand;
        location = or_text lot.location (lit "—");
        purchased = shown_date host (lit "—") lot.purchased_at;
        expires = shown_date host (lit "—") lot.expire_at;
        notes = or_text lot.notes (lit "—");
        variant = status_variant status;
        status = status_label host status;
      }

  unfoldable pub details_view : Text → Bool → List StockLot → LotDetailsView
  unfolding lot_row
  details_view material_name show_zero_stock lots =
      let displayed = display_lots show_zero_stock lots in
      record {
        title = host.translate_with "lotDetails_title" (("name", material_name) ∷ []);
        consume_label = host.translate "btnConsume";
        switch =
            if has_switch lots
            then some (host.translate "lotShowZeroStock", show_zero_stock)
            else none;
        columns = map host.translate (
            "lotsColStock" ∷ "lotsColLocation" ∷ "lotsColPurchased" ∷ "lotsColExpiry"
            ∷ "lotsColNotes" ∷ "lotsColStatus" ∷ "lotsColActions" ∷ []);
        lots = table_of (host.translate "lotsEmpty") displayed lot_row displayed;
      }
