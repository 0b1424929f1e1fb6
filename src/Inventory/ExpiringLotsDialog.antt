-- ===== src/Inventory/ExpiringLotsDialog.antt =====
-- web/src/pages/inventory/ExpiringLotsDialog.tsx: the handlers. The page's `onChanged` is an
-- argument; it starts a load that nobody waits for.
pub mod View
use home_stock.Common.{Option, none, some, Bool, true, false, []}
use home_stock.Js.Text.{Text}
use home_stock.Js.Host.{Host}
use home_stock.Js.Outcome
use home_stock.Js.Outcome.{Outcome, ok, message_or}
use home_stock.Js.Dates.{to_date_input, date_or_blank}
use home_stock.Types.{StockLot, UpdateStockLotPayload}
use home_stock.Api.{update_lot, void_lot}
use home_stock.Async.{Async, ◌>>=◌, ◌>>◌, call, catch, finally, update, resolve}
use home_stock.Async.Slot.{Slot}

pub record ExpiringLotsDialog : Type 0 where
  pub editing_id : Option Text
  pub edit_expire_at : Text
  pub saving : Bool
  pub voiding_id : Option Text
  pub error : Text

-- The effect that runs when `open` changes.
unfoldable pub on_open : Bool → ExpiringLotsDialog → ExpiringLotsDialog
on_open true d = d
on_open false d = record d { editing_id = none; error = [] }

unfoldable pub start_edit : StockLot → ExpiringLotsDialog → ExpiringLotsDialog
unfolding to_date_input
start_edit lot d = record d {
  editing_id = some lot.id;
  edit_expire_at = to_date_input lot.expire_at;
  error = [];
}

unfoldable pub cancel_edit : ExpiringLotsDialog → ExpiringLotsDialog
cancel_edit d = record d { editing_id = none; error = [] }

-- The argument of `stockLotApi.update`.
unfoldable pub payload : Host → Text → Outcome UpdateStockLotPayload
payload host edit_expire_at =
    Outcome.◌>>=◌ (date_or_blank host edit_expire_at)
      λ d. ok (record { expire_at = some d; purchased_at = none; location = none; notes = none })

module _ {S : Type 0} (host : Host) (slot : Slot S ExpiringLotsDialog) where
  abbrev set_error : Text → S → S
  set_error m = slot.put λ d. record d { error = m }

  -- `edit_expire_at` is the render's.
  unfoldable pub save_expire_at : Text → StockLot → Async S (Unit {0}) → Async S (Unit {0})
  save_expire_at edit_expire_at lot on_changed = do
    update (slot.put λ d. record d { saving = true })
    update (set_error [])
    finally
        (catch
          (do
            p ← resolve (payload host edit_expire_at)
            _ ← call (update_lot lot.id p)
            update (slot.put λ d. record d { editing_id = none })
            on_changed)
          (λ e. update (set_error (message_or (host.translate "expiring_errorUpdateFailed") e))))
        (slot.put λ d. record d { saving = false })

  unfoldable pub handle_void : StockLot → Async S (Unit {0}) → Async S (Unit {0})
  handle_void lot on_changed = do
    update (slot.put λ d. record d { voiding_id = some lot.id })
    update (set_error [])
    finally
        (catch (do _ ← call (void_lot lot.id); on_changed)
          (λ e. update (set_error (message_or (host.translate "expiring_errorVoidFailed") e))))
        (slot.put λ d. record d { voiding_id = none })
