-- ===== src/Inventory/Page/Events/Calls.antt =====
-- What the page asks of the server.
use home_stock.Common.{◌≡◌, Option, none, some, Bool-cases, inl, inr, []}
use home_stock.Js.Text.{Text}
use home_stock.Js.Text.Trim.{IsTrimmed}
use home_stock.Js.Host.{Host}
use home_stock.Js.Outcome.{>>=-eq-ok}
use home_stock.Js.Dates.{date_or_blank}
use home_stock.Types.{
  UpdateStockLotPayload, InboundStockLotPayload, AdjustStockLotPayload, ConsumeMaterialPayload,
  StockLot, MaterialSummary,
}
use home_stock.Api.{Call, promise_all, inbound_lot, update_lot, adjust_lot, consume_material}
use home_stock.Async.{◌>>=◌, ◌>>◌, resolve, call, update, start}
use home_stock.Async.Rules.{Calls, TaskCalls}
use home_stock.Async.Rules.Calls.{call_rules, to_task-Calls, done-TaskCalls, resolve_then-Calls}
use home_stock.Async.Pool.{Config, Reach}
use home_stock.Async.Pool.Calls.{WaitingCalls, Reach-WaitingCalls}
use home_stock.Inventory.InboundLotDialog.Laws as InboundLaws
use home_stock.Inventory.EditLotDialog
use home_stock.Inventory.EditLotDialog.Laws as EditLaws
use home_stock.Inventory.AdjustLotDialog.Laws as AdjustLaws
use home_stock.Inventory.ConsumeMaterialDialog.Laws as ConsumeLaws
use home_stock.Inventory.ExpiringLotsDialog
use home_stock.Inventory.Page.{Filters, InventoryPage, load_data}
use home_stock.Inventory.Page.Handlers.{
  inbound_slot, edit_slot, adjust_slot, consume_slot, expiring_slot, handle_inbound,
  handle_update_lot, handle_adjust_lot, handle_consume,
}
use home_stock.Inventory.Page.Events.{
  Event, mounted, search_settled, category_chosen, location_chosen, zero_stock_ticked,
  refresh_clicked, inbound_submitted, edit_submitted, adjust_submitted, consume_submitted,
  expiring_save, expiring_void, same_filters, refilter, Offered, react, inventory_page,
}

abbrev IsGivenTrimmed : Option Text → Type 0
IsGivenTrimmed none = Unit {0}
IsGivenTrimmed (some s) = IsTrimmed s

-- A call that changes the stock carries a valid payload: a received lot has a name, a unit and a
-- quantity that is neither 0 nor NaN; the texts of an edited lot are trimmed; an adjusted lot gets a
-- finite quantity of at least 0; a finite quantity above 0 is consumed.
abbrev pub IsValidCall : Call → Type 0
IsValidCall (inbound_lot p) = InboundLaws.IsValid p
IsValidCall (update_lot id p) = IsGivenTrimmed p.location × IsGivenTrimmed p.notes
IsValidCall (adjust_lot id p) = AdjustLaws.IsQuantity p.target_quantity
IsValidCall (consume_material id p) = ConsumeLaws.IsPositive p.quantity
IsValidCall (promise_all a b) = IsValidCall a × IsValidCall b
IsValidCall _ = Unit {0}

module _ (host : Host) (f : Filters) where
  load_data-Calls : Calls IsValidCall (load_data host f)
  unfolding load_data
  load_data-Calls = search call_rules depth 12

  handle_inbound-Calls :
      (p : InboundStockLotPayload)
      → InboundLaws.IsValid p
      → Calls IsValidCall (handle_inbound host f p)
  unfolding handle_inbound
  handle_inbound-Calls p h = search (load_data-Calls, h, call_rules) depth 12

  handle_update_lot-Calls :
      (lot : Option StockLot) (fields : EditLotDialog.Fields) (p : UpdateStockLotPayload)
      → EditLaws.IsValid host fields p
      → Calls IsValidCall (handle_update_lot host f lot p)
  unfolding handle_update_lot
  handle_update_lot-Calls none fields p h = search call_rules depth 12
  handle_update_lot-Calls (some lot) fields p h =
      let (l, is_l, l_trimmed) = h.location in
      let (n, is_n, n_trimmed) = h.notes in
      let valid : IsValidCall (update_lot lot.id p) = (rw is_l l_trimmed, rw is_n n_trimmed) in
      search (load_data-Calls, valid, call_rules) depth 12

  handle_adjust_lot-Calls :
      (lot : Option StockLot) (p : AdjustStockLotPayload)
      → AdjustLaws.IsQuantity p.target_quantity
      → Calls IsValidCall (handle_adjust_lot host f lot p)
  unfolding handle_adjust_lot
  handle_adjust_lot-Calls none p h = search call_rules depth 12
  handle_adjust_lot-Calls (some lot) p h = search (load_data-Calls, h, call_rules) depth 12

  handle_consume-Calls :
      (material : Option MaterialSummary) (p : ConsumeMaterialPayload)
      → ConsumeLaws.IsPositive p.quantity
      → Calls IsValidCall (handle_consume host f material p)
  unfolding handle_consume
  handle_consume-Calls none p h = search call_rules depth 12
  handle_consume-Calls (some material) p h = search (load_data-Calls, h, call_rules) depth 12

  sent :
      (date : Text) (lot : StockLot)
      → Calls IsValidCall (do
        p ← resolve (ExpiringLotsDialog.payload host date)
        _ ← call (update_lot lot.id p)
        update (expiring_slot.put λ d. record d { editing_id = none })
        start (load_data host f))
  unfolding ExpiringLotsDialog.payload
  sent date lot = resolve_then-Calls IsValidCall (ExpiringLotsDialog.payload host date) _ λ p e.
      let (d, was_read, is_p) = >>=-eq-ok (date_or_blank host date) _ p e in
      let no_location : p.location ≡ none = cc in
      let no_notes : p.notes ≡ none = cc in
      let valid : IsValidCall (update_lot lot.id p) = (rw no_location tt, rw no_notes tt) in
      search (load_data-Calls, valid, call_rules) depth 12

  save_expire_at-Calls :
      (date : Text) (lot : StockLot)
      → Calls IsValidCall
          (ExpiringLotsDialog.save_expire_at host expiring_slot date lot (start (load_data host f)))
  unfolding ExpiringLotsDialog.save_expire_at
  save_expire_at-Calls date lot = search (sent, call_rules) depth 14

  handle_void-Calls :
      (lot : StockLot)
      → Calls IsValidCall
          (ExpiringLotsDialog.handle_void host expiring_slot lot (start (load_data host f)))
  unfolding ExpiringLotsDialog.handle_void
  handle_void-Calls lot = search (load_data-Calls, call_rules) depth 14

-- One event: what it starts makes valid calls.
module _ (host : Host) where
  refilter-Calls : (f g : Filters) → TaskCalls IsValidCall (refilter host f g).task
  unfolding refilter
  refilter-Calls f g = elim (Bool-cases (same_filters f g)) [
    | inl same ↦ rw same (done-TaskCalls InventoryPage IsValidCall)
    | inr changed ↦ rw changed (to_task-Calls IsValidCall _ (load_data-Calls host g))
  ]

  react-Calls :
      (s : InventoryPage) (e : Event) → Offered s e → TaskCalls IsValidCall (react host s e).task
  unfolding react
  react-Calls s mounted offered = to_task-Calls IsValidCall _ (load_data-Calls host s.filters)
  react-Calls s refresh_clicked offered =
      to_task-Calls IsValidCall _ (load_data-Calls host s.filters)
  react-Calls s (search_settled v) offered =
      refilter-Calls s.filters (record (s.filters) { debounced_search = v })
  react-Calls s (category_chosen v) offered =
      refilter-Calls s.filters (record (s.filters) { category_filter = v })
  react-Calls s (location_chosen v) offered =
      refilter-Calls s.filters (record (s.filters) { location_filter = v })
  react-Calls s (zero_stock_ticked b) offered =
      refilter-Calls s.filters (record (s.filters) { show_zero_stock = b })
  react-Calls s inbound_submitted offered = to_task-Calls IsValidCall _ (
      InboundLaws.handle_submit-Calls host inbound_slot IsValidCall _ _ _ _
        (handle_inbound-Calls host s.filters))
  react-Calls s edit_submitted offered = to_task-Calls IsValidCall _ (
      EditLaws.handle_submit-Calls host edit_slot s.edit.fields IsValidCall _ _
        (handle_update_lot-Calls host s.filters s.editing_lot s.edit.fields))
  react-Calls s adjust_submitted offered = to_task-Calls IsValidCall _ (
      AdjustLaws.handle_submit-Calls host adjust_slot IsValidCall _ _ _
        (λ p q e. handle_adjust_lot-Calls host s.filters s.adjusting_lot p q))
  react-Calls s consume_submitted offered = to_task-Calls IsValidCall _ (
      ConsumeLaws.handle_submit-Calls host consume_slot IsValidCall _ _ _ _
        (λ p m q e. handle_consume-Calls host s.filters s.consuming_material p q))
  react-Calls s (expiring_save lot) offered =
      to_task-Calls IsValidCall _
        (save_expire_at-Calls host s.filters s.expiring.edit_expire_at lot)
  react-Calls s (expiring_void lot) offered =
      to_task-Calls IsValidCall _ (handle_void-Calls host s.filters lot)
  react-Calls s _ offered = done-TaskCalls InventoryPage IsValidCall

-- Whatever the user does and in whatever order the replies come, every call that a handler of the
-- page waits for, or will make after any further replies, is valid: a received lot has a name, a
-- unit and a quantity that is neither 0 nor NaN, the texts of an edited lot are trimmed, an
-- adjusted lot gets a finite quantity of at least 0, and a finite quantity above 0 is consumed.
pub Reach-Calls :
    (host : Host) (s : InventoryPage) (c : Config InventoryPage)
    → Reach (inventory_page host) (record { state = s; waiting = [] }) c
    → WaitingCalls IsValidCall c
Reach-Calls host s c r =
    Reach-WaitingCalls IsValidCall (inventory_page host) (react-Calls host) tt r
