-- ===== src/Inventory/EditLotDialog.antt =====
-- web/src/pages/inventory/EditLotDialog.tsx
pub mod Laws
pub mod View
use home_stock.Common.{Option, none, some, Bool, true, false, []}
use home_stock.Js.Text.{Text, trim}
use home_stock.Js.Host.{Host}
use home_stock.Js.Outcome
use home_stock.Js.Outcome.{Outcome, ok}
use home_stock.Js.Dates.{to_date_input, date_or_blank}
use home_stock.Types.{StockLot, UpdateStockLotPayload}
use home_stock.Async.{Async, ◌>>=◌, ◌>>◌, update, resolve}
use home_stock.Async.Slot.{Slot}
use home_stock.Inventory.Shell.{Shell, submit}

pub record Fields : Type 0 where
  pub location : Text
  pub notes : Text
  pub purchased_at : Text
  pub expire_at : Text

pub record EditLotDialog : Type 0 where
  pub fields : Fields
  pub shell : Shell

unfoldable pub fields_of : StockLot → Fields
unfolding to_date_input
fields_of lot = record {
  location = lot.location;
  notes = lot.notes;
  purchased_at = to_date_input lot.purchased_at;
  expire_at = to_date_input lot.expire_at;
}

-- The effect that runs when `open` or `lot` changes.
unfoldable pub on_open : Bool → Option StockLot → EditLotDialog → EditLotDialog
unfolding fields_of
on_open false lot d = d
on_open true none d = d
on_open true (some lot) d = record {
  fields = fields_of lot;
  shell = record (d.shell) { error = [] };
}

-- The argument of `onSubmit`.
unfoldable pub payload : Host → Fields → Outcome UpdateStockLotPayload
unfolding date_or_blank
payload host f = Outcome.◌>>=◌ (date_or_blank host f.purchased_at) λ purchased_at.
    Outcome.◌>>=◌ (date_or_blank host f.expire_at) λ expire_at. ok (record {
      expire_at = some expire_at;
      purchased_at = some purchased_at;
      location = some (trim f.location);
      notes = some (trim f.notes);
    })

unfoldable pub handle_submit :
    {S : Type 0}
    → Host
    → Slot S Shell
    → Fields
    → (UpdateStockLotPayload → Async S (Unit {0}))
    → (S → S)
    → Async S (Unit {0})
handle_submit host slot f on_submit on_close =
    submit slot (host.translate "editLot_errorFailed")
      do p ← resolve (payload host f); on_submit p; update on_close
