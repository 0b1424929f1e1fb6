-- ===== src/Inventory/Page/Events/DialogRest.antt =====
-- The submissions of the inventory page's dialogs, and the mark `loading`.
use home_stock.Common.{refl, inl, inr, Option, none, some, false, [], Bool-cases}
use home_stock.Js.Text.{Text, trim, truthy}
use home_stock.Js.Host.{Host}
use home_stock.Js.Outcome.{Thrown, Outcome, ok, err, message_or}
use home_stock.Types.{MaterialSummary, StockLot, ConsumeMaterialPayload, UpdateStockLotPayload}
use home_stock.Api.{Reply, inbound_lot, update_lot, adjust_lot, void_lot}
use home_stock.Async.{
  Async, ◌>>=◌, ◌>>◌, catch, finally, call, call_three, resolve, update, to_task, start,
}
use home_stock.Async.Pool.Rest.{Brings, Restores}
use home_stock.Inventory.Shell.{set_error, set_submitting, submit}
use home_stock.Inventory.Page.{Filters, InventoryPage, loaded, load_failed, load_data}
use home_stock.Inventory.InboundLotDialog
use home_stock.Inventory.EditLotDialog
use home_stock.Inventory.AdjustLotDialog
use home_stock.Inventory.ConsumeMaterialDialog
use home_stock.Inventory.ExpiringLotsDialog
use home_stock.Inventory.Page.Handlers.{
  inbound_slot, edit_slot, adjust_slot, consume_slot, expiring_slot, handle_inbound,
  handle_update_lot, handle_adjust_lot, handle_consume,
}
use home_stock.Inventory.Page.Loading.{LoadReply}
use home_stock.Inventory.Page.Events.Rest.{
  NotLoading, load_data-Brings, submit-Restores, nothing-Restores, resolve-Restores, error-Restores,
}

module _ (host : Host) (f : Filters) where
  pub inbound-Restores :
      (language : Text) (form : InboundLotDialog.FormState)
      → Restores NotLoading (
          to_task (
            InboundLotDialog.handle_submit host inbound_slot language form
              (handle_inbound host f)
              (λ t. record t { inbound_open = false })))
  unfolding InboundLotDialog.handle_submit handle_inbound
  inbound-Restores language form = elim (Bool-cases (truthy (trim form.name))) [
    | inl named ↦ rw named (
        resolve-Restores host f inbound_slot _ _ (λ p t q. q) (λ t q. q)
          (InboundLotDialog.payload host language form) (handle_inbound host f)
          λ p. submit-Restores host f inbound_slot _ _ (λ p t q. q) (λ t q. q) (inbound_lot p))
    | inr blank ↦
        rw blank (error-Restores host f inbound_slot [] (λ t. t) (λ p t q. q) (λ t q. q) _)
  ]

  pub edit-Restores :
      (lot : Option StockLot) (fields : EditLotDialog.Fields)
      → Restores NotLoading (
          to_task (
            EditLotDialog.handle_submit host edit_slot fields
              (handle_update_lot host f lot)
              (λ t. record t { editing_lot = none })))
  unfolding EditLotDialog.handle_submit handle_update_lot ◌>>=◌
  edit-Restores none fields =
      resolve-Restores host f edit_slot _ _ (λ p t q. q) (λ t q. q) _
        (handle_update_lot host f none)
        λ p. nothing-Restores host f edit_slot _ _ (λ p t q. q) (λ t q. q)
  edit-Restores (some lot) fields =
      resolve-Restores host f edit_slot _ _ (λ p t q. q) (λ t q. q) _
        (handle_update_lot host f (some lot))
        λ p. submit-Restores host f edit_slot _ _ (λ p t q. q) (λ t q. q) (update_lot lot.id p)

  pub adjust-Restores :
      (lot : Option StockLot) (fields : AdjustLotDialog.Fields)
      → Restores NotLoading (
          to_task (
            AdjustLotDialog.handle_submit host adjust_slot fields
              (handle_adjust_lot host f lot)
              (λ t. record t { adjusting_lot = none })))
  unfolding AdjustLotDialog.handle_submit handle_adjust_lot ◌>>=◌
  adjust-Restores lot fields =
      elim (Bool-cases (AdjustLotDialog.is_invalid (host.number_of fields.target_quantity))) [
        | inl invalid ↦
            rw invalid (error-Restores host f adjust_slot [] (λ t. t) (λ p t q. q) (λ t q. q) _)
        | inr valid ↦ rw valid (sent lot)
      ]
    where
      sent :
          (lot : Option StockLot)
          → Restores NotLoading (
              to_task (
                submit adjust_slot (host.translate "adjustLot_errorFailed") (
                  handle_adjust_lot host f lot
                    (AdjustLotDialog.payload (host.number_of fields.target_quantity) fields)
                  >>= λ _. update (λ t. record t { adjusting_lot = none }))))
      sent none = nothing-Restores host f adjust_slot _ _ (λ p t q. q) (λ t q. q)
      sent (some lot) =
          submit-Restores host f adjust_slot _ _ (λ p t q. q) (λ t q. q) (adjust_lot lot.id _)

  consume_concluded-Brings :
      (o : Outcome LoadReply) (h : Thrown → Async InventoryPage (Unit {0})) (s : InventoryPage)
      → Brings NotLoading
          (to_task (
            finally
              (catch
                (finally
                    (catch
                      (resolve o >>= λ x.
                        update (loaded host f x.0.materials x.1.0.lots x.1.1.categories))
                      (λ e. update (load_failed host e)))
                    (λ t. record t { loading = false })
                  >>= (λ _. update (λ t. record t { consuming_material = none }))
                  >>= λ _. update (λ t. record t { consuming_material = none }))
                h)
              (set_submitting consume_slot false)))
          s
  unfolding Brings to_task ◌>>=◌ catch finally resolve update set_submitting
  consume_concluded-Brings (ok x) h s = refl
  consume_concluded-Brings (err e) h s = refl

  abbrev forget_material : Async InventoryPage (Unit {0})
  forget_material = update (λ t. record t { consuming_material = none })

  consume_called-Restores :
      (m : MaterialSummary) (p : ConsumeMaterialPayload) (fallback : Text)
      → Restores NotLoading (
          to_task (
            finally
              (catch
                (handle_consume host f (some m) p >>= λ _. forget_material)
                (λ e. update (set_error consume_slot (message_or fallback e))))
              (set_submitting consume_slot false)))
  unfolding Restores Brings handle_consume load_data to_task ◌>>=◌ catch finally update call
      call_three resolve set_error set_submitting
  consume_called-Restores m p fallback (ok a) = inr λ s r u. consume_concluded-Brings r _ u
  consume_called-Restores m p fallback (err e) = inl (λ s q. q, inl (λ s q. q, tt))

  consume_submit-Restores :
      (m : MaterialSummary) (p : ConsumeMaterialPayload) (fallback : Text)
      → Restores NotLoading (
          to_task (
            submit consume_slot fallback
              (handle_consume host f (some m) p >>= λ _. forget_material)))
  unfolding Restores submit to_task ◌>>=◌ update set_error set_submitting
  consume_submit-Restores m p fallback =
      inl (λ s q. q, inl (λ s q. q, consume_called-Restores m p fallback))

  pub consume-Restores :
      (material : Option MaterialSummary) (fields : ConsumeMaterialDialog.Fields)
      → Restores NotLoading (
          to_task (
            ConsumeMaterialDialog.handle_submit host consume_slot material fields
              (handle_consume host f material)
              (λ t. record t { consuming_material = none })))
  unfolding ConsumeMaterialDialog.handle_submit ConsumeMaterialDialog.submit_quantity
  consume-Restores none fields =
      error-Restores host f consume_slot [] (λ t. t) (λ p t q. q) (λ t q. q) _
  consume-Restores (some m) fields =
      elim (Bool-cases (ConsumeMaterialDialog.is_invalid (host.number_of fields.quantity))) [
        | inl invalid ↦
            rw invalid (error-Restores host f consume_slot [] (λ t. t) (λ p t q. q) (λ t q. q) _)
        | inr valid ↦ rw valid (consume_submit-Restores m _ _)
      ]

  -- The dialog of the lots that expire starts a load and does not wait for it.
  load_data-Restores : Restores NotLoading (to_task (load_data host f))
  unfolding Restores load_data to_task ◌>>=◌ catch finally call_three resolve update Brings
  load_data-Restores = inr (load_data-Brings host f)

  void_replied-Restores :
      (lot : StockLot) (r : Outcome (Reply (void_lot lot.id)))
      → Restores NotLoading (
          to_task (
            finally
              (catch (resolve r >>= λ _. start (load_data host f)) (λ e. update (
                expiring_slot.put λ d. record d {
                  error = message_or (host.translate "expiring_errorVoidFailed") e;
                })))
              (expiring_slot.put λ d. record d { voiding_id = none })))
  unfolding Restores to_task ◌>>=◌ catch finally resolve update start
  void_replied-Restores lot (ok a) = (load_data-Restores, inl (λ s q. q, tt))
  void_replied-Restores lot (err e) = inl (λ s q. q, inl (λ s q. q, tt))

  pub void-Restores :
      (lot : StockLot)
      → Restores NotLoading (
          to_task
            (ExpiringLotsDialog.handle_void host expiring_slot lot (start (load_data host f))))
  unfolding Restores ExpiringLotsDialog.handle_void to_task ◌>>=◌ catch finally call update
  void-Restores lot = inl (λ s q. q, inl (λ s q. q, void_replied-Restores lot))

  save_replied-Restores :
      (lot : StockLot) (p : UpdateStockLotPayload) (r : Outcome (Reply (update_lot lot.id p)))
      → Restores NotLoading (
          to_task (
            finally
              (catch
                (do
                  _ ← resolve r
                  update (expiring_slot.put λ d. record d { editing_id = none })
                  start (load_data host f))
                (λ e. update (
                  expiring_slot.put λ d. record d {
                    error = message_or (host.translate "expiring_errorUpdateFailed") e;
                  })))
              (expiring_slot.put λ d. record d { saving = false })))
  unfolding Restores to_task ◌>>=◌ catch finally resolve update start
  save_replied-Restores lot p (ok a) = inl (λ s q. q, (load_data-Restores, inl (λ s q. q, tt)))
  save_replied-Restores lot p (err e) = inl (λ s q. q, inl (λ s q. q, tt))

  saving-Restores :
      (lot : StockLot) (o : Outcome UpdateStockLotPayload)
      → Restores NotLoading (
          to_task (
            finally
              (catch
                (do
                  p ← resolve o
                  _ ← call (update_lot lot.id p)
                  update (expiring_slot.put λ d. record d { editing_id = none })
                  start (load_data host f))
                (λ e. update (
                  expiring_slot.put λ d. record d {
                    error = message_or (host.translate "expiring_errorUpdateFailed") e;
                  })))
              (expiring_slot.put λ d. record d { saving = false })))
  unfolding Restores to_task ◌>>=◌ catch finally resolve call update start
  saving-Restores lot (ok p) = save_replied-Restores lot p
  saving-Restores lot (err e) = inl (λ s q. q, inl (λ s q. q, tt))

  pub save-Restores :
      (date : Text) (lot : StockLot)
      → Restores NotLoading (
          to_task (
            ExpiringLotsDialog.save_expire_at host expiring_slot date lot
              (start (load_data host f))))
  unfolding Restores ExpiringLotsDialog.save_expire_at to_task ◌>>=◌ update
  save-Restores date lot =
      inl (λ s q. q, inl (λ s q. q, saving-Restores lot (ExpiringLotsDialog.payload host date)))
