-- ===== src/Tests/Inventory.antt =====
-- The laws of the inventory page at the sample page.
use home_stock.Common.{
  inl, ◌≡◌, ◌≤◌, ◌↔◌, refl, none, some, true, false, [], ◌∷◌, pos, arith, length, List, map, ℕ, ◌+◌,
  IsOrdered,
}
use home_stock.Js.Text.{Text, lit, trim, truthy, or_none}
use home_stock.Js.Number.{fin}
use home_stock.Js.Dates.{optional_date}
use home_stock.Async.{◌>>◌, update}
use home_stock.Async.Pool.{Config, fire, answer, Reach, event, next, here}
use home_stock.Async.Pool.Calls.{WaitingCalls}
use home_stock.Types.Status.{expiring, get_inventory_status}
use home_stock.Types.Status.Laws.{get_inventory_status_iff, IsIn, known_date}
use home_stock.Inventory.Shell.{submit}
use home_stock.Inventory.InboundLotDialog
use home_stock.Inventory.AdjustLotDialog
use home_stock.Inventory.AdjustLotDialog.Laws.{handle_submit-on_open}
use home_stock.Inventory.ConsumeMaterialDialog
use home_stock.Inventory.Page.{InventoryPage, total_pages, paginated, page_size, next_materials}
use home_stock.Inventory.Page.Pagination.{first_pages, first_pages-total_pages, paginated_bounds}
use home_stock.Inventory.Page.Handlers.{
  inbound_slot, adjust_slot, consume_slot, handle_inbound, handle_adjust_lot, handle_consume,
}
use home_stock.Inventory.Page.Loading.{stale_load, idle, Replies}
use home_stock.Inventory.Page.Events.{edit_submitted, mounted, next_clicked, inventory_page}
use home_stock.Inventory.Page.Events.Calls.{IsValidCall, Reach-Calls}
use home_stock.Inventory.Page.Events.Consistent.{IsConsistent}
use home_stock.Inventory.Page.Events.Invariant.{Reach-IsConsistent}
use home_stock.Inventory.Page.LoadResult.{Asks, wanted, refreshing, Concludes, refreshed-Concludes}
use home_stock.Async.Promise.{Arrival, settled}
use home_stock.Async.Rules.Replied.{Replied}
use home_stock.Inventory.Shell.Replied.{Submitted}
use home_stock.Inventory.Page.Submissions.{
  inbound_submit-Replied, adjust_submit-Replied, consume_submit-Replied,
}
use home_stock.Inventory.Page.Loading.{replies_of}
use mathlib.Core.List.{Mem, Nodup}
use home_stock.Types.{StockLot, InboundStockLotPayload}
use home_stock.Js.Outcome.{Outcome, ok, err, other}
use home_stock.Api.{Call, Reply, inbound_lot, adjust_lot, consume_material}
use home_stock.Async.Pool.Schedule.{after, in_order, in_order-Chooses}
use home_stock.Inventory.Page.Events.Settled.{IsReady, inventory_page-rest}
use home_stock.Inventory.Page.Initial.{initial_page, initial_search}
use home_stock.Debounce.Refine.{last_settled, total}
use home_stock.Inventory.Page.Search.{search_delay, searching, settle_at, typing}
use home_stock.Inventory.Page.Search.Laws.{settlements, typing-last_settled}
use home_stock.Inventory.Page.View.{page_links}
use home_stock.Inventory.Page.View.Laws.{marked, page_links-marked}
use home_stock.Inventory.Page.Locations.{location_options}
use home_stock.Inventory.Page.Locations.Laws.{location_options-Mem}
use home_stock.Tests.Fixtures.{host, filters, page, lot, summary, food, number_of-text_of}

after_edit : Config InventoryPage
after_edit = fire (inventory_page host) (idle page) edit_submitted

Reach-Calls_example : WaitingCalls IsValidCall after_edit
unfolding after_edit
Reach-Calls_example =
    Reach-Calls host page after_edit (next here (event edit_submitted ((λ e. cc), refl)))

after_next : Config InventoryPage
after_next = fire (inventory_page host) (idle page) next_clicked

Reach-IsConsistent_example : IsConsistent after_next.state
unfolding after_next total_pages
Reach-IsConsistent_example =
    Reach-IsConsistent host page after_next (inl refl, omega arith, (omega arith), refl)
      (next here (event next_clicked tt))

replies : Replies
replies = record {
  materials = record { materials = summary "m3" ∷ []; total = fin (pos 1) };
  lots = record { lots = lot "l3" "m3" ∷ []; total = fin (pos 1) };
  categories = record { categories = food ∷ []; total = fin (pos 1) };
}

stale_load_example :
    (c : Config InventoryPage) × Reach (inventory_page host) (idle page) c
    × (c.waiting ≡ [])
    × (c.state.filters ≡ record filters { category_filter = lit "c1" })
    × (c.state.materials ≡ next_materials filters replies.materials.materials replies.lots.lots)
stale_load_example = stale_load host page (lit "c1") replies replies refl

stored_lots : List StockLot
stored_lots = lot "l1" "m1" ∷ lot "l2" "m2" ∷ []

location_options-Mem_example :
    ((v : Text)
      → Mem v (location_options host stored_lots)
        ↔ ((truthy v ≡ true) × Mem v (map (λ lot. lot.location) stored_lots)))
    × Nodup (location_options host stored_lots)
    × IsOrdered host.locale_less (location_options host stored_lots)
location_options-Mem_example = location_options-Mem host stored_lots (λ s t h. refl)

abbrev rice : InboundStockLotPayload
rice = record {
  material_id = none;
  name = some (lit "rice");
  spec = none;
  category_id = none;
  quantity = fin (pos 5);
  unit = some (lit "pcs");
  location = none;
  expire_at = none;
  purchased_at = none;
  notes = none;
}

inbound_submit-Replied_example :
    Replied
      (Submitted inbound_slot
        (λ t. t.inbound_open ≡ false)
        (host.translate "inbound_errorFailed")
        (inbound_lot rice)
        page)
      (InboundLotDialog.handle_submit host inbound_slot host.language page.inbound.form
        (handle_inbound host page.filters)
        (λ t. record t { inbound_open = false }))
      page
unfolding trim InboundLotDialog.payload optional_date
inbound_submit-Replied_example = inbound_submit-Replied host page rice refl refl

adjust_submit-Replied_example :
    Replied
      (Submitted adjust_slot
        (λ t. t.adjusting_lot ≡ none)
        (host.translate "adjustLot_errorFailed")
        (adjust_lot (lit "l1") (record {
          target_quantity = host.number_of page.adjust.fields.target_quantity;
          reason = or_none (trim page.adjust.fields.reason);
          remark = or_none (trim page.adjust.fields.remark);
        }))
        page)
      (AdjustLotDialog.handle_submit host adjust_slot page.adjust.fields
        (handle_adjust_lot host page.filters (some (lot "l1" "m1")))
        (λ t. record t { adjusting_lot = none }))
      page
adjust_submit-Replied_example =
    adjust_submit-Replied host page (lot "l1" "m1") (pos 2, refl, omega arith)

consume_submit-Replied_example :
    Replied
      (Submitted consume_slot
        (λ t. t.consuming_material ≡ none)
        (host.translate "consume_errorFailed")
        (consume_material (lit "m1") (record {
          quantity = host.number_of page.consume.fields.quantity;
          reason = or_none (trim page.consume.fields.reason);
        }))
        page)
      (ConsumeMaterialDialog.handle_submit host consume_slot
        (some (summary "m1"))
        page.consume.fields
        (handle_consume host page.filters (some (summary "m1")))
        (λ t. record t { consuming_material = none }))
      page
consume_submit-Replied_example =
    consume_submit-Replied host page (summary "m1") (pos 2, refl, ground arith)

handle_submit-on_open_example :
    AdjustLotDialog.handle_submit host adjust_slot
      (AdjustLotDialog.on_open host true (some (lot "l1" "m1")) page.adjust).fields
      (handle_adjust_lot host filters (some (lot "l1" "m1")))
      (λ t. record t { adjusting_lot = none })
    ≡ submit adjust_slot (lit "adjustLot_errorFailed") (
        handle_adjust_lot host filters
          (some (lot "l1" "m1"))
          (record { target_quantity = fin (pos 5); reason = none; remark = none })
        >> update (λ t. record t { adjusting_lot = none }))
handle_submit-on_open_example =
    handle_submit-on_open host adjust_slot (lot "l1" "m1") page.adjust
      (handle_adjust_lot host filters (some (lot "l1" "m1")))
      (λ t. record t { adjusting_lot = none }) (pos 5, refl, omega arith) number_of-text_of

get_inventory_status_iff_example :
    (get_inventory_status host 3 (pos 5) (some (7 ∷ [])) ≡ expiring)
    ↔ IsIn expiring 3 (pos 5) (known_date host (some (7 ∷ [])))
get_inventory_status_iff_example = get_inventory_status_iff host 3 (pos 5) (some (7 ∷ [])) expiring

first_pages-total_pages_example :
    first_pages (total_pages page.materials) page.materials ≡ page.materials
first_pages-total_pages_example = first_pages-total_pages page.materials

paginated_bounds_example :
    (length (paginated 1 page.materials) ≤ page_size)
    × (length (paginated 1 page.materials) ≡ 0 → length page.materials ≡ 0)
unfolding total_pages
paginated_bounds_example = paginated_bounds 1 page.materials (omega arith) (omega arith)

-- All replies come at the same time.
at_once : (c : Call) → Arrival (Reply c)
at_once c = record { outcome = replies_of replies c; at = 3 }

refreshed-Concludes_example :
    Asks (refreshing host page) (wanted page.filters)
    × ((answer (refreshing host page) 0 (settled at_once)).waiting ≡ [])
    × Concludes host page.filters
        (ok (replies.materials, (replies.lots, replies.categories)))
        (record page { error = [] })
        (answer (refreshing host page) 0 (settled at_once)).state
unfolding at_once
refreshed-Concludes_example =
    refreshed-Concludes host page at_once
      (ok (replies.materials, (replies.lots, replies.categories))) (refl, refl, refl)

opened : Config InventoryPage
opened =
    fire (inventory_page host)
      (record { state = initial_page host (lit "?keyword=rice"); waiting = [] }) mounted

page_links-marked_example :
    let links = (page_links (total_pages opened.state.materials) opened.state.page).links in
    (length links ≡ total_pages opened.state.materials)
    × (marked links ≡ (opened.state.page, true) ∷ [])
unfolding opened
page_links-marked_example =
    page_links-marked host (lit "?keyword=rice") opened (next here (event mounted tt))

lost : (c : Call) → Outcome (Reply c)
lost c = err (other [])

inventory_page-rest_example :
    (n : ℕ) × ((after in_order (λ c. lost) n opened).waiting ≡ [])
    × IsReady (after in_order (λ c. lost) n opened).state
unfolding opened
inventory_page-rest_example =
    inventory_page-rest host (lit "?keyword=rice") opened in_order (λ c. lost)
      (next here (event mounted tt)) (in_order-Chooses (λ c. lost))

abbrev keystrokes : List (Text × ℕ)
keystrokes = (lit "r", 700) ∷ (lit "ri", 100) ∷ (lit "rice", 120) ∷ []

typing-last_settled_example :
    let first = initial_search host (lit "?keyword=oil") in
    let x =
      settle_at host
        (50 + (total search_delay keystrokes + 300))
        (typing host 50 keystrokes (searching host (lit "?keyword=oil") 50)) in
    (x.page.state.filters.debounced_search ≡ last_settled search_delay first first keystrokes 300)
    × (length x.page.waiting ≡ 1 + settlements search_delay first first keystrokes 300)
typing-last_settled_example = typing-last_settled host (lit "?keyword=oil") 50 keystrokes 300
