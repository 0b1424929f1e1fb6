-- ===== src/Inventory/Page/Events/Submitting.antt =====
-- The handlers of the inventory page, and the marks `submitting` of its dialogs.
use home_stock.Common.{
  ◌≡◌, refl, subst, List, inl, inr, ◌⊎◌, false, Option, none, some, Bool-cases, not,
}
use home_stock.Js.Text.{Text, truthy, trim}
use home_stock.Js.Host.{Host}
use home_stock.Types.{
  MaterialSummary, StockLot, Category, AdjustStockLotPayload, ConsumeMaterialPayload,
}
use home_stock.Async.{to_task, start}
use home_stock.Async.Pool.Keeps.{Keeps, keep_rules}
use home_stock.Async.Pool.Rest.{Brings, Restores, done-Restores}
use home_stock.Async.Pool.Rest.Reached.{Rests}
use home_stock.Async.Pool.Rest.Finally.{Keeps-Restores, if-Restores}
use home_stock.Inventory.Shell.{set_error, set_submitting}
use home_stock.Inventory.Shell.Rest.{FreeOf, submit-Restores_free}
use home_stock.Inventory.Page.{
  Filters, InventoryPage, loaded, load_body, load_data, reopen_inbound, selected_material,
}
use home_stock.Inventory.InboundLotDialog
use home_stock.Inventory.EditLotDialog
use home_stock.Inventory.AdjustLotDialog
use home_stock.Inventory.ConsumeMaterialDialog
use home_stock.Inventory.ExpiringLotsDialog
use home_stock.Inventory.Page.Handlers.{
  inbound_slot, edit_slot, adjust_slot, consume_slot, expiring_slot, handle_inbound,
  handle_update_lot, handle_adjust_lot, handle_consume,
}
use home_stock.Inventory.Page.Events.Flags.{Flags, flags, reopen_inbound-flags}
use home_stock.Inventory.Page.Events.{
  mounted, search_settled, category_chosen, location_chosen, zero_stock_ticked, refresh_clicked,
  inbound_clicked, consume_clicked, details_clicked, details_consume, inbound_submitted,
  edit_submitted, adjust_submitted, consume_submitted, expiring_save, expiring_void, same_filters,
  refilter, consume_selected, react, inventory_page,
}

-- A property of the flags: for each dialog, its flag does not matter, or false satisfies it.
module _ (P : Flags → Type 0) (free_inbound : FreeOf inbound_slot (λ s. P (flags s)))
    (free_edit : FreeOf edit_slot (λ s. P (flags s)))
    (free_adjust : FreeOf adjust_slot (λ s. P (flags s)))
    (free_consume : FreeOf consume_slot (λ s. P (flags s))) (host : Host) where
  abbrev Q : InventoryPage → Type 0
  Q s = P (flags s)

  reopened-Q : (s : InventoryPage) → Q s → Q (reopen_inbound host s)
  reopened-Q s q = subst P (reopen_inbound-flags host s) q

  loaded-Q :
      (f : Filters) (materials : List MaterialSummary) (lots : List StockLot)
      (categories : List Category) (s : InventoryPage)
      → Q s
      → Q (loaded host f materials lots categories s)
  unfolding loaded
  loaded-Q f materials lots categories s q = reopened-Q _ q

  load_data-Keeps : (f : Filters) → Keeps Q (load_data host f)
  unfolding load_data load_body
  load_data-Keeps f = search (keep_rules, loaded-Q) depth 12

  load-Restores : (f : Filters) → Restores Q (to_task (load_data host f))
  load-Restores f = Keeps-Restores Q _ (load_data-Keeps f)

  inbound-Restores_free :
      (f : Filters) (language : Text) (form : InboundLotDialog.FormState)
      → Restores Q (
          to_task (
            InboundLotDialog.handle_submit host inbound_slot language form
              (handle_inbound host f)
              (λ t. record t { inbound_open = false })))
  unfolding InboundLotDialog.handle_submit handle_inbound set_error
  inbound-Restores_free f language form =
      if-Restores Q (not (truthy (trim form.name))) _ _
        (Keeps-Restores Q _ (search keep_rules depth 12))
        (submit-Restores_free inbound_slot Q (λ m s q. q) _ _
          (search (load_data-Keeps, keep_rules) depth 12) free_inbound)

  edit-Restores_free :
      (f : Filters) (lot : Option StockLot) (fields : EditLotDialog.Fields)
      → Restores Q (
          to_task (
            EditLotDialog.handle_submit host edit_slot fields
              (handle_update_lot host f lot)
              (λ t. record t { editing_lot = none })))
  unfolding EditLotDialog.handle_submit handle_update_lot set_error
  edit-Restores_free f none fields =
      submit-Restores_free edit_slot Q (λ m s q. q) _ _ (search keep_rules depth 12) free_edit
  edit-Restores_free f (some lot) fields =
      submit-Restores_free edit_slot Q (λ m s q. q) _ _
        (search (load_data-Keeps, keep_rules) depth 12) free_edit

  adjusted-Keeps :
      (f : Filters) (lot : Option StockLot) (p : AdjustStockLotPayload)
      → Keeps Q (handle_adjust_lot host f lot p)
  unfolding handle_adjust_lot
  adjusted-Keeps f none p = search keep_rules depth 12
  adjusted-Keeps f (some lot) p = search (load_data-Keeps, keep_rules) depth 12

  adjust-Restores_free :
      (f : Filters) (lot : Option StockLot) (fields : AdjustLotDialog.Fields)
      → Restores Q (
          to_task (
            AdjustLotDialog.handle_submit host adjust_slot fields
              (handle_adjust_lot host f lot)
              (λ t. record t { adjusting_lot = none })))
  unfolding AdjustLotDialog.handle_submit set_error
  adjust-Restores_free f lot fields =
      if-Restores Q (AdjustLotDialog.is_invalid (host.number_of fields.target_quantity)) _ _
        (Keeps-Restores Q _ (search keep_rules depth 12))
        (submit-Restores_free adjust_slot Q (λ m s q. q) _ _
          (search (adjusted-Keeps, keep_rules) depth 12) free_adjust)

  consumed-Keeps :
      (f : Filters) (m : MaterialSummary) (p : ConsumeMaterialPayload)
      → Keeps Q (handle_consume host f (some m) p)
  unfolding handle_consume
  consumed-Keeps f m p = search (load_data-Keeps, keep_rules) depth 12

  consume-Restores_free :
      (f : Filters) (material : Option MaterialSummary) (fields : ConsumeMaterialDialog.Fields)
      → Restores Q (
          to_task (
            ConsumeMaterialDialog.handle_submit host consume_slot material fields
              (handle_consume host f material)
              (λ t. record t { consuming_material = none })))
  unfolding ConsumeMaterialDialog.handle_submit ConsumeMaterialDialog.submit_quantity set_error
  consume-Restores_free f none fields = Keeps-Restores Q _ (search keep_rules depth 12)
  consume-Restores_free f (some m) fields =
      if-Restores Q (ConsumeMaterialDialog.is_invalid (host.number_of fields.quantity)) _ _
        (Keeps-Restores Q _ (search keep_rules depth 12))
        (submit-Restores_free consume_slot Q (λ m s q. q) _ _
          (search (consumed-Keeps, keep_rules) depth 12) free_consume)

  save-Restores_free :
      (f : Filters) (date : Text) (lot : StockLot)
      → Restores Q (
          to_task (
            ExpiringLotsDialog.save_expire_at host expiring_slot date lot
              (start (load_data host f))))
  unfolding ExpiringLotsDialog.save_expire_at
  save-Restores_free f date lot = Keeps-Restores Q _ (search (load_data-Keeps, keep_rules) depth 14)

  void-Restores_free :
      (f : Filters) (lot : StockLot)
      → Restores Q (
          to_task
            (ExpiringLotsDialog.handle_void host expiring_slot lot (start (load_data host f))))
  unfolding ExpiringLotsDialog.handle_void
  void-Restores_free f lot = Keeps-Restores Q _ (search (load_data-Keeps, keep_rules) depth 14)

  refilter-Rests_free :
      (f g : Filters) (s : InventoryPage)
      → ((Q s → Q ((refilter host f g).change s)) × Restores Q (refilter host f g).task)
        ⊎ Brings Q (refilter host f g).task ((refilter host f g).change s)
  unfolding refilter
  refilter-Rests_free f g s = elim (Bool-cases (same_filters f g)) [
    | inl same ↦ rw same (inl (λ h. h, done-Restores Q))
    | inr changed ↦ rw changed (inl (λ h. h, load-Restores g))
  ]

  consume_selected-Q :
      (m : Option MaterialSummary) (s : InventoryPage) → Q s → Q (consume_selected m s)
  unfolding consume_selected ConsumeMaterialDialog.on_open
  consume_selected-Q none s h = h
  consume_selected-Q (some m) s h = h

  react-Rests_free : Rests Q (inventory_page host)
  unfolding react EditLotDialog.on_open AdjustLotDialog.on_open
  react-Rests_free s mounted offered = inl (λ h. h, load-Restores s.filters)
  react-Rests_free s refresh_clicked offered = inl (λ h. h, load-Restores s.filters)
  react-Rests_free s (search_settled v) offered = refilter-Rests_free s.filters _ s
  react-Rests_free s (category_chosen v) offered = refilter-Rests_free s.filters _ s
  react-Rests_free s (location_chosen v) offered = refilter-Rests_free s.filters _ s
  react-Rests_free s (zero_stock_ticked b) offered = refilter-Rests_free s.filters _ s
  react-Rests_free s inbound_clicked offered = inl (reopened-Q _, done-Restores Q)
  react-Rests_free s (details_clicked m) offered = inl (reopened-Q _, done-Restores Q)
  react-Rests_free s (consume_clicked m) offered =
      inl (consume_selected-Q (some m) s, done-Restores Q)
  react-Rests_free s details_consume offered =
      inl (consume_selected-Q (selected_material s) s, done-Restores Q)
  react-Rests_free s inbound_submitted offered =
      inl (λ h. h, inbound-Restores_free s.filters host.language s.inbound.form)
  react-Rests_free s edit_submitted offered =
      inl (λ h. h, edit-Restores_free s.filters s.editing_lot s.edit.fields)
  react-Rests_free s adjust_submitted offered =
      inl (λ h. h, adjust-Restores_free s.filters s.adjusting_lot s.adjust.fields)
  react-Rests_free s consume_submitted offered =
      inl (λ h. h, consume-Restores_free s.filters s.consuming_material s.consume.fields)
  react-Rests_free s (expiring_save lot) offered =
      inl (λ h. h, save-Restores_free s.filters s.expiring.edit_expire_at lot)
  react-Rests_free s (expiring_void lot) offered = inl (λ h. h, void-Restores_free s.filters lot)
  react-Rests_free s _ offered = inl (λ h. h, done-Restores Q)

module _ (host : Host) where
  pub inbound_flag-Rests : Rests (λ s. (flags s).inbound ≡ false) (inventory_page host)
  unfolding set_submitting
  inbound_flag-Rests =
      react-Rests_free (λ x. x.inbound ≡ false) (inr (λ s. refl)) (inl (λ s q. q, λ s q. q))
        (inl (λ s q. q, λ s q. q)) (inl (λ s q. q, λ s q. q)) host

  pub edit_flag-Rests : Rests (λ s. (flags s).edit ≡ false) (inventory_page host)
  unfolding set_submitting
  edit_flag-Rests =
      react-Rests_free (λ x. x.edit ≡ false) (inl (λ s q. q, λ s q. q)) (inr (λ s. refl))
        (inl (λ s q. q, λ s q. q)) (inl (λ s q. q, λ s q. q)) host

  pub adjust_flag-Rests : Rests (λ s. (flags s).adjust ≡ false) (inventory_page host)
  unfolding set_submitting
  adjust_flag-Rests =
      react-Rests_free (λ x. x.adjust ≡ false) (inl (λ s q. q, λ s q. q)) (inl (λ s q. q, λ s q. q))
        (inr (λ s. refl)) (inl (λ s q. q, λ s q. q)) host

  pub consume_flag-Rests : Rests (λ s. (flags s).consume ≡ false) (inventory_page host)
  unfolding set_submitting
  consume_flag-Rests =
      react-Rests_free (λ x. x.consume ≡ false) (inl (λ s q. q, λ s q. q))
        (inl (λ s q. q, λ s q. q)) (inl (λ s q. q, λ s q. q)) (inr (λ s. refl)) host
