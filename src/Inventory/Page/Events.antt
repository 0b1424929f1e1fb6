-- ===== src/Inventory/Page/Events.antt =====
-- What the rendered page offers to its user, and what each event does. An event of a dialog is
-- offered while the dialog is open.
pub mod Consistent
pub mod Invariant
pub mod Calls
pub mod Rest
pub mod DialogRest
pub mod Flags
pub mod Submitting
pub mod Settled
use Prim.Native.Nat.{min, max}
use home_stock.Common.{
  ℕ, ◌+◌, ◌-◌, ◌≤◌, ◌≡◌, Option, none, some, Bool, true, false, ◌&&◌, List, ◌≢◌, if◌then◌else◌,
}
use mathlib.Core.List.{Memᴰ}
use home_stock.Js.Text.{Text, eq_text}
use home_stock.Js.Host.{Host}
use home_stock.Types.{MaterialSummary, StockLot}
use home_stock.Async.{Task, Async, to_task, start}
use home_stock.Async.Pool.{Reaction, Component}
use home_stock.Inventory.InboundLotDialog.{FormState}
use home_stock.Inventory.InboundLotDialog
use home_stock.Inventory.EditLotDialog
use home_stock.Inventory.AdjustLotDialog
use home_stock.Inventory.ConsumeMaterialDialog
use home_stock.Inventory.ExpiringLotsDialog
use home_stock.Inventory.LotDetailsDialog.{display_lots, has_switch}
use home_stock.Inventory.Page.{
  Filters, InventoryPage, total_pages, paginated, selected_material, selected_lots, reopen_inbound,
  load_data,
}
use home_stock.Inventory.Page.Handlers.{
  inbound_slot, edit_slot, adjust_slot, consume_slot, expiring_slot, handle_inbound,
  handle_update_lot, handle_adjust_lot, handle_consume,
}

pub data Event : Type 0 where
  mounted : Event
  search_typed search_settled category_chosen location_chosen : Text → Event
  zero_stock_ticked : Bool → Event
  refresh_clicked inbound_clicked : Event
  consume_clicked details_clicked : MaterialSummary → Event
  previous_clicked next_clicked : Event
  page_clicked : ℕ → Event
  -- the inbound dialog
  inbound_typed : FormState → Event
  inbound_submitted inbound_closed : Event
  -- the details dialog
  details_edit details_adjust : StockLot → Event
  details_zero_ticked : Bool → Event
  details_consume details_closed : Event
  -- the other dialogs of a lot or material
  edit_typed : EditLotDialog.Fields → Event
  edit_submitted edit_closed : Event
  adjust_typed : AdjustLotDialog.Fields → Event
  adjust_submitted adjust_closed : Event
  consume_typed : ConsumeMaterialDialog.Fields → Event
  consume_submitted consume_closed : Event
  -- the dialog of the lots that expire
  expiring_edit expiring_save expiring_void : StockLot → Event
  expiring_typed : Text → Event
  expiring_cancel expiring_closed : Event

abbrev now : (InventoryPage → InventoryPage) → Reaction InventoryPage
now f = record { change = f; task = Task.done }

abbrev later : Async InventoryPage (Unit {0}) → Reaction InventoryPage
later m = record { change = λ s. s; task = to_task m }

abbrev pub same_filters : Filters → Filters → Bool
same_filters f g =
    eq_text f.category_filter g.category_filter
    && eq_text f.location_filter g.location_filter
    && eq_text f.debounced_search g.debounced_search
    && (if f.show_zero_stock then g.show_zero_stock else if g.show_zero_stock then false else true)

-- A change of what `loadData` captures makes its effect run: it loads with the new filters.
unfoldable pub refilter : Host → Filters → Filters → Reaction InventoryPage
refilter host f g =
    if same_filters f g
    then now (λ s. s)
    else record { change = λ s. record s { filters = g }; task = to_task (load_data host g) }

-- `if (selectedMaterial) setConsumingMaterial(selectedMaterial)`
unfoldable pub consume_selected : Option MaterialSummary → InventoryPage → InventoryPage
consume_selected none s = s
consume_selected (some m) s = record s {
  consuming_material = some m;
  consume = ConsumeMaterialDialog.on_open true s.consume;
}

unfoldable pub react : Host → InventoryPage → Event → Reaction InventoryPage
unfolding refilter consume_selected
react host s mounted = later (load_data host s.filters)
react host s (search_typed v) = now (λ t. record t { search = v })
react host s (search_settled v) =
    refilter host s.filters (record (s.filters) { debounced_search = v })
react host s (category_chosen v) =
    refilter host s.filters (record (s.filters) { category_filter = v })
react host s (location_chosen v) =
    refilter host s.filters (record (s.filters) { location_filter = v })
react host s (zero_stock_ticked b) =
    refilter host s.filters (record (s.filters) { show_zero_stock = b })
react host s refresh_clicked = later (load_data host s.filters)
react host s inbound_clicked = now (λ t. reopen_inbound host (record t { inbound_open = true }))
react host s (consume_clicked m) = now (consume_selected (some m))
react host s (details_clicked m) =
    now
      (λ t. reopen_inbound host (record t { selected_material_id = m.id; lot_details_open = true }))
react host s previous_clicked = now (λ t. record t { page = max 1 (t.page - 1) })
react host s (page_clicked num) = now (λ t. record t { page = num })
react host s next_clicked =
    now (λ t. record t { page = min (total_pages s.materials) (t.page + 1) })
react host s (inbound_typed form) =
    now (λ t. record t { inbound = record (t.inbound) { form = form } })
react host s inbound_submitted = later (
    InboundLotDialog.handle_submit host inbound_slot host.language s.inbound.form
      (handle_inbound host s.filters) (λ t. record t { inbound_open = false }))
react host s inbound_closed = now (λ t. record t { inbound_open = false })
react host s (details_edit lot) =
    now (λ t. record t {
      editing_lot = some lot;
      edit = EditLotDialog.on_open true (some lot) t.edit;
    })
react host s (details_adjust lot) = now (λ t. record t {
  adjusting_lot = some lot;
  adjust = AdjustLotDialog.on_open host true (some lot) t.adjust;
})
react host s (details_zero_ticked b) = now (λ t. record t { details_zero_stock = b })
react host s details_consume = now (consume_selected (selected_material s))
react host s details_closed = now (λ t. record t { lot_details_open = false })
react host s (edit_typed f) = now (λ t. record t { edit = record (t.edit) { fields = f } })
react host s edit_submitted = later (
    EditLotDialog.handle_submit host edit_slot s.edit.fields
      (handle_update_lot host s.filters s.editing_lot) (λ t. record t { editing_lot = none }))
react host s edit_closed = now (λ t. record t { editing_lot = none })
react host s (adjust_typed f) = now (λ t. record t { adjust = record (t.adjust) { fields = f } })
react host s adjust_submitted = later (
    AdjustLotDialog.handle_submit host adjust_slot s.adjust.fields
      (handle_adjust_lot host s.filters s.adjusting_lot) (λ t. record t { adjusting_lot = none }))
react host s adjust_closed = now (λ t. record t { adjusting_lot = none })
react host s (consume_typed f) = now (λ t. record t { consume = record (t.consume) { fields = f } })
react host s consume_submitted = later (
    ConsumeMaterialDialog.handle_submit host consume_slot s.consuming_material s.consume.fields
      (handle_consume host s.filters s.consuming_material)
      (λ t. record t { consuming_material = none }))
react host s consume_closed = now (λ t. record t { consuming_material = none })
react host s (expiring_edit lot) =
    now (λ t. record t { expiring = ExpiringLotsDialog.start_edit lot t.expiring })
react host s (expiring_typed v) =
    now (λ t. record t { expiring = record (t.expiring) { edit_expire_at = v } })
react host s (expiring_save lot) = later (
    ExpiringLotsDialog.save_expire_at host expiring_slot s.expiring.edit_expire_at lot
      (start (load_data host s.filters)))
react host s (expiring_void lot) =
    later (ExpiringLotsDialog.handle_void host expiring_slot lot (start (load_data host s.filters)))
react host s expiring_cancel =
    now (λ t. record t { expiring = ExpiringLotsDialog.cancel_edit t.expiring })
react host s expiring_closed = now (λ t. record t {
  expiring_open = false;
  expiring = ExpiringLotsDialog.on_open false t.expiring;
})

-- What the render shows: the rows of the page, a link for each page, the open dialogs.
abbrev pub Offered : InventoryPage → Event → Type 0
Offered s (consume_clicked m) = Memᴰ m (paginated s.page s.materials)
Offered s (details_clicked m) = Memᴰ m (paginated s.page s.materials)
Offered s (page_clicked num) = (1 ≤ num) × (num ≤ total_pages s.materials)
Offered s (inbound_typed form) = s.inbound_open ≡ true
Offered s inbound_closed = s.inbound_open ≡ true
Offered s inbound_submitted = (s.inbound_open ≡ true) × (s.inbound.shell.submitting ≡ false)
Offered s (details_edit lot) =
    (s.lot_details_open ≡ true) × Memᴰ lot (display_lots s.details_zero_stock (selected_lots s))
Offered s (details_adjust lot) =
    (s.lot_details_open ≡ true) × Memᴰ lot (display_lots s.details_zero_stock (selected_lots s))
Offered s (details_zero_ticked b) =
    (s.lot_details_open ≡ true) × (has_switch (selected_lots s) ≡ true)
Offered s details_consume = s.lot_details_open ≡ true
Offered s details_closed = s.lot_details_open ≡ true
Offered s edit_closed = s.editing_lot ≢ none
Offered s (edit_typed f) = s.editing_lot ≢ none
Offered s edit_submitted = (s.editing_lot ≢ none) × (s.edit.shell.submitting ≡ false)
Offered s adjust_closed = s.adjusting_lot ≢ none
Offered s (adjust_typed f) = s.adjusting_lot ≢ none
Offered s adjust_submitted = (s.adjusting_lot ≢ none) × (s.adjust.shell.submitting ≡ false)
Offered s consume_closed = s.consuming_material ≢ none
Offered s (consume_typed f) = s.consuming_material ≢ none
Offered s consume_submitted = (s.consuming_material ≢ none) × (s.consume.shell.submitting ≡ false)
Offered s (expiring_edit lot) = s.expiring_open ≡ true
Offered s (expiring_typed v) = s.expiring_open ≡ true
Offered s (expiring_save lot) = s.expiring_open ≡ true
Offered s (expiring_void lot) = s.expiring_open ≡ true
Offered s expiring_cancel = s.expiring_open ≡ true
Offered s expiring_closed = s.expiring_open ≡ true
Offered s _ = Unit {0}

abbrev pub inventory_page : Host → Component InventoryPage Event
inventory_page host = record { Offered = Offered; react = react host }
