-- ===== src/Inventory/Page/Submissions.antt =====
-- The submissions of the page's dialogs: what they ask for, and what each reply makes of the page.
use home_stock.Common.{◌≡◌, refl, none, some, true, false}
use home_stock.Js.Text.{truthy, trim, or_none}
use home_stock.Js.Host.{Host}
use home_stock.Js.Outcome.{Outcome, ok}
use home_stock.Types.{MaterialSummary, StockLot, InboundStockLotPayload}
use home_stock.Api.{inbound_lot, adjust_lot, consume_material}
use home_stock.Async.{Async, ◌>>=◌, ◌>>◌, call, resolve, update}
use home_stock.Async.Rules.{Ends}
use home_stock.Async.Rules.Ends.{update-Ends, update_then-Ends, finished-Ends}
use home_stock.Async.Rules.Replied.{Replied, then-Ends}
use home_stock.Inventory.Shell.Replied.{Submitted, submit-Replied}
use home_stock.Inventory.InboundLotDialog
use home_stock.Inventory.AdjustLotDialog
use home_stock.Inventory.AdjustLotDialog.Laws.{IsQuantity, IsQuantity-is_invalid}
use home_stock.Inventory.ConsumeMaterialDialog
use home_stock.Inventory.ConsumeMaterialDialog.Laws.{IsPositive, IsPositive-is_invalid}
use home_stock.Inventory.Page.{Filters, InventoryPage, load_data}
use home_stock.Inventory.Page.Handlers.{
  inbound_slot, adjust_slot, consume_slot, handle_inbound, handle_adjust_lot, handle_consume,
}

-- The handler ends without throwing.
abbrev IsOver : InventoryPage → Outcome (Unit {0}) → Type 0
IsOver t o = o ≡ ok tt

load_data-Ends : (host : Host) (f : Filters) (s : InventoryPage) → Ends IsOver (load_data host f) s
unfolding load_data
load_data-Ends host f s = update_then-Ends _ _ _ s (finished-Ends _ _ _ _ _ λ t. refl)

closing-Ends :
    (C : InventoryPage → Type 0) (on_close : InventoryPage → InventoryPage)
    → ((t : InventoryPage) → C (on_close t))
    → (m : Async InventoryPage (Unit {0})) (s : InventoryPage) → Ends IsOver m s
    → Ends (λ t o. (o ≡ ok tt) × C t) (m >> update on_close) s
closing-Ends C on_close closes m s h =
    then-Ends _ _ m s h λ t. update-Ends _ on_close t (refl, closes t)

-- A form with a name that is not blank and with dates that can be read: the handler of the inbound
-- dialog asks for the inbound of the form's payload, marked as submitting and without an error. If
-- the reply is good, whatever the replies to the load that follows and whatever other handlers do
-- meanwhile, the dialog is closed and not submitting in the end. If it is an error, the dialog
-- shows its message and is not submitting, and nothing else of the page, so not whether the dialog
-- is open, has changed since the reply. In no case does the handler throw.
pub inbound_submit-Replied :
    (host : Host) (s : InventoryPage) (p : InboundStockLotPayload)
    → truthy (trim s.inbound.form.name) ≡ true
    → InboundLotDialog.payload host host.language s.inbound.form ≡ ok p
    → Replied
        (Submitted inbound_slot
          (λ t. t.inbound_open ≡ false)
          (host.translate "inbound_errorFailed")
          (inbound_lot p)
          s)
        (InboundLotDialog.handle_submit host inbound_slot host.language s.inbound.form
          (handle_inbound host s.filters)
          (λ t. record t { inbound_open = false }))
        s
unfolding InboundLotDialog.handle_submit handle_inbound resolve ◌>>=◌ call
inbound_submit-Replied host s p named read =
    rw (named, read)
      (submit-Replied inbound_slot (λ t. t.inbound_open ≡ false) (λ f t h. h) _ (inbound_lot p) _
        (λ a u.
          closing-Ends _ _ (λ t. refl) (load_data host s.filters) u
            (load_data-Ends host s.filters u))
        (λ e. refl) s)

-- A render with a lot and a field that denotes a finite quantity of at least 0: the handler of the adjusting
-- dialog asks for that quantity of that lot, with the texts of the two other fields, marked as
-- submitting and without an error. If the reply is good, whatever the replies to the load that
-- follows and whatever other handlers do meanwhile, the dialog is closed and not submitting in the
-- end. If it is an error, the dialog shows its message and is not submitting, and nothing else of
-- the page has changed since the reply. In no case does the handler throw.
pub adjust_submit-Replied :
    (host : Host) (s : InventoryPage) (lot : StockLot)
    → IsQuantity (host.number_of s.adjust.fields.target_quantity)
    → Replied
        (Submitted adjust_slot
          (λ t. t.adjusting_lot ≡ none)
          (host.translate "adjustLot_errorFailed")
          (adjust_lot lot.id (record {
            target_quantity = host.number_of s.adjust.fields.target_quantity;
            reason = or_none (trim s.adjust.fields.reason);
            remark = or_none (trim s.adjust.fields.remark);
          }))
          s)
        (AdjustLotDialog.handle_submit host adjust_slot s.adjust.fields
          (handle_adjust_lot host s.filters (some lot))
          (λ t. record t { adjusting_lot = none }))
        s
unfolding AdjustLotDialog.handle_submit AdjustLotDialog.payload handle_adjust_lot resolve ◌>>=◌ call
adjust_submit-Replied host s lot q = rw (IsQuantity-is_invalid _ q) (
    submit-Replied adjust_slot (λ t. t.adjusting_lot ≡ none) (λ f t h. h) _ (adjust_lot lot.id _) _
      (λ a u.
        closing-Ends _ _ (λ t. refl) (load_data host s.filters) u (load_data-Ends host s.filters u))
      (λ e. refl) s)

-- A render with a material and a field that denotes a finite quantity above 0: the handler of the consuming
-- dialog asks for the consumption of that quantity of that material, with the text of the other
-- field, marked as submitting and without an error. If the reply is good, whatever the replies to
-- the load that follows and whatever other handlers do meanwhile, the dialog is closed and not
-- submitting in the end. If it is an error, the dialog shows its message and is not submitting, and
-- nothing else of the page has changed since the reply. In no case does the handler throw.
pub consume_submit-Replied :
    (host : Host) (s : InventoryPage) (material : MaterialSummary)
    → IsPositive (host.number_of s.consume.fields.quantity)
    → Replied
        (Submitted consume_slot
          (λ t. t.consuming_material ≡ none)
          (host.translate "consume_errorFailed")
          (consume_material material.id (record {
            quantity = host.number_of s.consume.fields.quantity;
            reason = or_none (trim s.consume.fields.reason);
          }))
          s)
        (ConsumeMaterialDialog.handle_submit host consume_slot
          (some material)
          s.consume.fields
          (handle_consume host s.filters (some material))
          (λ t. record t { consuming_material = none }))
        s
unfolding ConsumeMaterialDialog.handle_submit ConsumeMaterialDialog.submit_quantity
    ConsumeMaterialDialog.payload handle_consume resolve ◌>>=◌ call
consume_submit-Replied host s material q = rw (IsPositive-is_invalid _ q) (
    submit-Replied consume_slot (λ t. t.consuming_material ≡ none) (λ f t h. h) _
      (consume_material material.id _) _
      (λ a u.
        closing-Ends _ _ (λ t. refl) _ u
          (then-Ends _ _ (load_data host s.filters) u (load_data-Ends host s.filters u)
            λ t. update-Ends _ _ t refl))
      (λ e. refl) s)
