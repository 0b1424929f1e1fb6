-- ===== src/Inventory/AdjustLotDialog.antt =====
-- web/src/pages/inventory/AdjustLotDialog.tsx
pub mod Laws
pub mod View
use home_stock.Common.{Option, none, some, Bool, true, false, not, ◌||◌, [], if◌then◌else◌}
use home_stock.Js.Text.{Text, lit, trim, or_none}
use home_stock.Js.Number.{Number, zero_number, is_finite, lt_number}
use home_stock.Js.Host.{Host}
use home_stock.Types.{StockLot, AdjustStockLotPayload}
use home_stock.Async.{Async, ◌>>=◌, ◌>>◌, update}
use home_stock.Async.Slot.{Slot}
use home_stock.Inventory.Shell.{Shell, set_error, submit}

pub record Fields : Type 0 where
  pub target_quantity : Text
  pub reason : Text
  pub remark : Text

pub record AdjustLotDialog : Type 0 where
  pub fields : Fields
  pub shell : Shell

abbrev pub fields_of : Host → StockLot → Fields
fields_of host lot = record {
  target_quantity = host.text_of lot.quantity_on_hand;
  reason = [];
  remark = [];
}

-- The effect that runs when `open` or `lot` changes.
unfoldable pub on_open : Host → Bool → Option StockLot → AdjustLotDialog → AdjustLotDialog
on_open host false lot d = d
on_open host true none d = d
on_open host true (some lot) d = record {
  fields = fields_of host lot;
  shell = record (d.shell) { error = [] };
}

-- `!Number.isFinite(n) || n < 0`
unfoldable pub is_invalid : Number → Bool
is_invalid n = not (is_finite n) || lt_number n zero_number

unfoldable pub payload : Number → Fields → AdjustStockLotPayload
payload next_quantity f = record {
  target_quantity = next_quantity;
  reason = or_none (trim f.reason);
  remark = or_none (trim f.remark);
}

unfoldable pub handle_submit :
    {S : Type 0}
    → Host
    → Slot S Shell
    → Fields
    → (AdjustStockLotPayload → Async S (Unit {0}))
    → (S → S)
    → Async S (Unit {0})
handle_submit host slot f on_submit on_close =
    let next_quantity = host.number_of f.target_quantity in
    if is_invalid next_quantity
    then update (set_error slot (host.translate "adjustLot_errorInvalidQuantity"))
    else submit slot (host.translate "adjustLot_errorFailed")
        do on_submit (payload next_quantity f); update on_close
