-- ===== src/Inventory/Page/Events/Invariant.antt =====
-- What holds of the page in every reachable state.
use home_stock.Common.{refl, inl, inr, Option, none, some, [], arith, Bool-cases}
use home_stock.Js.Text.{Text}
use home_stock.Js.Host.{Host}
use home_stock.Types.{MaterialSummary, StockLot}
use home_stock.Async.{start}
use home_stock.Async.Pool.{Reaction, Config, Reach}
use home_stock.Async.Pool.Keeps.{
  TaskKeeps, Keeps, keep_rules, done-TaskKeeps, to_task-TaskKeeps, IsKept, Reach-IsKept,
}
use home_stock.Inventory.Page.{Filters, InventoryPage, selected_material, reopen_inbound, load_data}
use home_stock.Inventory.InboundLotDialog.{FormState}
use home_stock.Inventory.InboundLotDialog
use home_stock.Inventory.EditLotDialog
use home_stock.Inventory.AdjustLotDialog
use home_stock.Inventory.ConsumeMaterialDialog
use home_stock.Inventory.ExpiringLotsDialog
use home_stock.Inventory.Shell.{set_error}
use home_stock.Inventory.Shell.Laws.{submit-Keeps}
use home_stock.Inventory.Page.Handlers.{
  inbound_slot, edit_slot, adjust_slot, consume_slot, expiring_slot, handle_inbound,
  handle_update_lot, handle_adjust_lot, handle_consume,
}
use home_stock.Inventory.Page.Events.Consistent.{
  IsConsistent, one-le-total_pages, load_data-Keeps, paginated-has_material,
}
use home_stock.Inventory.Page.Events.{
  Event, mounted, search_settled, category_chosen, location_chosen, zero_stock_ticked,
  refresh_clicked, consume_clicked, details_clicked, previous_clicked, next_clicked, page_clicked,
  inbound_submitted, details_consume, edit_submitted, adjust_submitted, consume_submitted,
  expiring_save, expiring_void, expiring_closed, same_filters, refilter, consume_selected, Offered,
  react, inventory_page,
}

module _ (host : Host) where
  inbound-Keeps :
      (f : Filters) (language : Text) (form : FormState) (on_close : InventoryPage → InventoryPage)
      → ((t : InventoryPage) → IsConsistent t → IsConsistent (on_close t))
      → Keeps IsConsistent (
          InboundLotDialog.handle_submit host inbound_slot language form
            (handle_inbound host f)
            on_close)
  unfolding InboundLotDialog.handle_submit handle_inbound set_error
  inbound-Keeps f language form on_close closes =
      search (load_data-Keeps, submit-Keeps, keep_rules, closes) depth 12

  edit-Keeps :
      (f : Filters) (lot : Option StockLot) (fields : EditLotDialog.Fields)
      → Keeps IsConsistent (
          EditLotDialog.handle_submit host edit_slot fields
            (handle_update_lot host f lot)
            (λ t. record t { editing_lot = none }))
  unfolding EditLotDialog.handle_submit handle_update_lot
  edit-Keeps f none fields = search (submit-Keeps, keep_rules) depth 12
  edit-Keeps f (some lot) fields = search (load_data-Keeps, submit-Keeps, keep_rules) depth 12

  adjust-Keeps :
      (f : Filters) (lot : Option StockLot) (fields : AdjustLotDialog.Fields)
      → Keeps IsConsistent (
          AdjustLotDialog.handle_submit host adjust_slot fields
            (handle_adjust_lot host f lot)
            (λ t. record t { adjusting_lot = none }))
  unfolding AdjustLotDialog.handle_submit handle_adjust_lot set_error
  adjust-Keeps f none fields = search (submit-Keeps, keep_rules) depth 12
  adjust-Keeps f (some lot) fields = search (load_data-Keeps, submit-Keeps, keep_rules) depth 12

  consume-Keeps :
      (f : Filters) (material : Option MaterialSummary) (fields : ConsumeMaterialDialog.Fields)
      → Keeps IsConsistent (
          ConsumeMaterialDialog.handle_submit host consume_slot material fields
            (handle_consume host f material)
            (λ t. record t { consuming_material = none }))
  unfolding ConsumeMaterialDialog.handle_submit handle_consume set_error
  consume-Keeps f none fields = search keep_rules depth 12
  consume-Keeps f (some material) fields =
      search (load_data-Keeps, submit-Keeps, keep_rules) depth 12

  expiring_save-Keeps :
      (f : Filters) (date : Text) (lot : StockLot)
      → Keeps IsConsistent
          (ExpiringLotsDialog.save_expire_at host expiring_slot date lot (start (load_data host f)))
  unfolding ExpiringLotsDialog.save_expire_at
  expiring_save-Keeps f date lot = search (load_data-Keeps, keep_rules) depth 14

  expiring_void-Keeps :
      (f : Filters) (lot : StockLot)
      → Keeps IsConsistent
          (ExpiringLotsDialog.handle_void host expiring_slot lot (start (load_data host f)))
  unfolding ExpiringLotsDialog.handle_void
  expiring_void-Keeps f lot = search (load_data-Keeps, keep_rules) depth 14

-- One event: what it does at once and what it starts keep the page consistent.
abbrev ReactKeeps : Reaction InventoryPage → InventoryPage → Type 0
ReactKeeps r s = IsConsistent (r.change s) × TaskKeeps IsConsistent r.task

refilter-Keeps :
    (host : Host) (f g : Filters) (s : InventoryPage)
    → IsConsistent s
    → ReactKeeps (refilter host f g) s
unfolding refilter
refilter-Keeps host f g s h = elim (Bool-cases (same_filters f g)) [
  | inl same ↦ rw same (h, done-TaskKeeps IsConsistent)
  | inr changed ↦ rw changed (h, to_task-TaskKeeps IsConsistent _ (load_data-Keeps host g))
]

consume_selected-IsConsistent :
    (m : Option MaterialSummary) (s : InventoryPage)
    → IsConsistent s
    → IsConsistent (consume_selected m s)
unfolding consume_selected
consume_selected-IsConsistent none s h = h
consume_selected-IsConsistent (some m) s h = h

react-Keeps :
    (host : Host) (s : InventoryPage) (e : Event)
    → Offered s e
    → IsConsistent s
    → ReactKeeps (react host s e) s
unfolding react reopen_inbound
react-Keeps host s mounted offered h =
    (h, to_task-TaskKeeps IsConsistent _ (load_data-Keeps host s.filters))
react-Keeps host s refresh_clicked offered h =
    (h, to_task-TaskKeeps IsConsistent _ (load_data-Keeps host s.filters))
react-Keeps host s (search_settled v) offered h =
    refilter-Keeps host s.filters (record (s.filters) { debounced_search = v }) s h
react-Keeps host s (category_chosen v) offered h =
    refilter-Keeps host s.filters (record (s.filters) { category_filter = v }) s h
react-Keeps host s (location_chosen v) offered h =
    refilter-Keeps host s.filters (record (s.filters) { location_filter = v }) s h
react-Keeps host s (zero_stock_ticked b) offered h =
    refilter-Keeps host s.filters (record (s.filters) { show_zero_stock = b }) s h
react-Keeps host s (details_clicked m) offered (selected, low, high, closed) = (
  (inl (paginated-has_material s.page m s.materials offered), low, high, closed),
  done-TaskKeeps IsConsistent,
)
react-Keeps host s previous_clicked offered h = (ground arith, done-TaskKeeps IsConsistent)
react-Keeps host s next_clicked offered (selected, low, high, closed) = (
  (selected, ground (arith, one-le-total_pages s.materials), ground arith, closed),
  done-TaskKeeps IsConsistent,
)
react-Keeps host s (page_clicked num) offered (selected, low, high, closed) =
    ((selected, offered.0, offered.1, closed), done-TaskKeeps IsConsistent)
react-Keeps host s inbound_submitted offered h =
    (h, to_task-TaskKeeps IsConsistent _ (inbound-Keeps host s.filters _ _ _ (λ t k. k)))
react-Keeps host s edit_submitted offered h =
    (h, to_task-TaskKeeps IsConsistent _ (edit-Keeps host s.filters s.editing_lot s.edit.fields))
react-Keeps host s adjust_submitted offered h = (
  h,
  to_task-TaskKeeps IsConsistent _ (adjust-Keeps host s.filters s.adjusting_lot s.adjust.fields),
)
react-Keeps host s consume_submitted offered h = (
  h,
  to_task-TaskKeeps IsConsistent _
      (consume-Keeps host s.filters s.consuming_material s.consume.fields),
)
react-Keeps host s (consume_clicked m) offered h =
    (consume_selected-IsConsistent (some m) s h, done-TaskKeeps IsConsistent)
react-Keeps host s details_consume offered h =
    (consume_selected-IsConsistent (selected_material s) s h, done-TaskKeeps IsConsistent)
react-Keeps host s (expiring_save lot) offered h = (
  h,
  to_task-TaskKeeps IsConsistent _
      (expiring_save-Keeps host s.filters s.expiring.edit_expire_at lot),
)
react-Keeps host s (expiring_void lot) offered h =
    (h, to_task-TaskKeeps IsConsistent _ (expiring_void-Keeps host s.filters lot))
react-Keeps host s expiring_closed offered (selected, low, high, closed) =
    ((selected, low, high, refl), done-TaskKeeps IsConsistent)
react-Keeps host s _ offered h = (h, done-TaskKeeps IsConsistent)

-- In every state that the page reaches from a consistent one, whatever the user does and in whatever
-- order the replies come: the selected material is in the table, or nothing is selected above an
-- empty table; the page number lies between 1 and the last page; and the dialog of the lots that
-- expire is closed.
pub Reach-IsConsistent :
    (host : Host) (s : InventoryPage) (c : Config InventoryPage)
    → IsConsistent s
    → Reach (inventory_page host) (record { state = s; waiting = [] }) c
    → IsConsistent c.state
Reach-IsConsistent host s c h r =
    let start_kept : IsKept IsConsistent (record { state = s; waiting = [] }) = record {
      holds = h;
      tasks = tt;
    } in
    (Reach-IsKept IsConsistent (inventory_page host) (react-Keeps host) start_kept r).holds
