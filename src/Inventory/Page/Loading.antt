-- ===== src/Inventory/Page/Loading.antt =====
-- What a load makes of the page: alone, late, and under an open form.
use home_stock.Common.{ℕ, ◌≡◌, refl, ap, subst, true, false, List, [], ◌∷◌, ◌++◌}
use home_stock.Js.Text.{Text, eq_text}
use home_stock.Js.Host.{Host}
use home_stock.Js.Outcome.{Outcome, ok, err, other}
use home_stock.Types.{Category, MaterialSummary, StockLot}
use home_stock.Api.{
  Call, Reply, promise_all, list_materials, list_lots, list_categories, MaterialListResponse,
  StockLotListResponse, CategoryListResponse,
}
use home_stock.Async.{call, Task, ◌>>=◌, catch, finally, call_three, resolve, update, to_task}
use home_stock.Async.Pool.{Config, settle, answer, fire, event, reply, Reach, here, next}
use home_stock.Inventory.InboundLotDialog.{FormState}
use home_stock.Inventory.InboundLotDialog
use home_stock.Inventory.Page.{
  Filters, InventoryPage, selected_material, material_query, lot_query, next_materials, loaded,
  load_data, load_failed,
}
use home_stock.Inventory.Page.Events.{mounted, category_chosen, refilter, react, inventory_page}

-- When a load ends while the inbound dialog is open, the form becomes the same whatever stood in
-- it.
loaded-form :
    (host : Host) (f : Filters) (materials : List MaterialSummary) (lots : List StockLot)
    (categories : List Category) (s : InventoryPage) (typed : FormState)
    → s.inbound_open ≡ true
    → (loaded host f materials lots categories
        (record s { inbound = record (s.inbound) { form = typed } })).inbound.form
      ≡ (loaded host f materials lots categories s).inbound.form
unfolding loaded InboundLotDialog.on_open selected_material
loaded-form host f materials lots categories s typed e = rw e

-- The replies of a server to one load.
pub record Replies : Type 0 where
  pub materials : MaterialListResponse
  pub lots : StockLotListResponse
  pub categories : CategoryListResponse

abbrev all_ok : {A B : Type 0} → Outcome A → Outcome B → Outcome (A × B)
all_ok (ok a) (ok b) = ok (a, b)
all_ok (ok a) (err e) = err e
all_ok (err e) _ = err e

abbrev pub replies_of : Replies → (c : Call) → Outcome (Reply c)
replies_of r (list_materials q) = ok r.materials
replies_of r (list_lots q) = ok r.lots
replies_of r list_categories = ok r.categories
replies_of r (promise_all a b) = all_ok (replies_of r a) (replies_of r b)
replies_of r _ = err (other [])

-- A page at rest.
abbrev pub idle : InventoryPage → Config InventoryPage
idle s = record { state = s; waiting = [] }

-- The replies to the i-th of the waiting loads.
answer_load : ℕ → Replies → Config InventoryPage → Config InventoryPage
answer_load i x c = answer c i (replies_of x)

-- What `Promise.all` resolves to.
abbrev pub LoadReply : Type 0
LoadReply = MaterialListResponse × (StockLotListResponse × CategoryListResponse)

abbrev pub load_calls : Filters → Call
load_calls f =
    promise_all (list_materials (material_query f))
      (promise_all (list_lots (lot_query f)) list_categories)

module _ (host : Host) where
  -- What a load does when its three calls are settled.
  unfoldable pub concluding : Filters → Outcome LoadReply → Task InventoryPage
  concluding f o = to_task (
      finally
        (catch (resolve o >>= λ x. update (loaded host f x.0.materials x.1.0.lots x.1.1.categories))
          (λ e. update (load_failed host e)))
        (λ s. record s { loading = false }))

  abbrev load_done : Filters → Replies → InventoryPage → InventoryPage
  load_done f x s =
      record (loaded host f x.materials.materials x.lots.lots x.categories.categories s) {
        loading = false;
      }

  -- A load while it waits for its calls.
  unfoldable pub waiting_load : Filters → Task InventoryPage
  waiting_load f = Task.await (load_calls f) (concluding f)

  pub settle-load_data :
      (f : Filters) (s : InventoryPage) (ws : List (Task InventoryPage))
      → settle (to_task (load_data host f)) s ws ≡ record {
        state = record s { loading = true; error = [] };
        waiting = ws ++ waiting_load f ∷ [];
      }
  unfolding load_data settle to_task ◌>>=◌ catch finally call_three call resolve update waiting_load
      concluding
  settle-load_data f s ws = refl

  answered-ok :
      (f : Filters) (x : Replies) (s : InventoryPage) (ws : List (Task InventoryPage))
      → settle (concluding f (ok (x.materials, (x.lots, x.categories)))) s ws
        ≡ record { state = load_done f x s; waiting = ws }
  unfolding concluding settle to_task ◌>>=◌ catch finally resolve update
  answered-ok f x s ws = refl

  -- Two loads wait; the second gets its replies first.
  second_then_first :
      (f g : Filters) (early late : Replies) (s : InventoryPage)
      → answer_load 0 late (
          answer_load 1 early
            (record { state = s; waiting = waiting_load f ∷ waiting_load g ∷ [] }))
        ≡ record { state = load_done f late (load_done g early s); waiting = [] }
  unfolding answer answer_load waiting_load concluding to_task ◌>>=◌ catch finally resolve update
  second_then_first f g early late s = refl

  module _ (s : InventoryPage) where
    one_load : Config InventoryPage
    one_load = record {
      state = record s { loading = true; error = [] };
      waiting = waiting_load s.filters ∷ [];
    }

    mounted-one_load : fire (inventory_page host) (idle s) mounted ≡ one_load
    unfolding fire react one_load
    mounted-one_load = settle-load_data s.filters s []

    module _ (v : Text) (changed : eq_text s.filters.category_filter v ≡ false) where
      chosen : Filters
      chosen = record (s.filters) { category_filter = v }

      two_loads : Config InventoryPage
      unfolding chosen
      two_loads = record {
        state = record s { filters = chosen; loading = true; error = [] };
        waiting = waiting_load s.filters ∷ waiting_load chosen ∷ [];
      }

      chosen-two_loads : fire (inventory_page host) one_load (category_chosen v) ≡ two_loads
      unfolding fire react one_load two_loads
      chosen-two_loads =
          rw (changed, refilter)
            (settle-load_data chosen (record s { filters = chosen; loading = true; error = [] })
              (waiting_load s.filters ∷ []))

      two_replies :
          (early late : Replies) (c : Config InventoryPage)
          → Reach (inventory_page host) (idle s) c
          → Reach (inventory_page host) (idle s) (answer_load 0 late (answer_load 1 early c))
      unfolding answer_load
      two_replies early late c r =
          next (next r (reply 1 (replies_of early))) (reply 0 (replies_of late))

      overtaken : Replies → Replies → Config InventoryPage
      overtaken early late = answer_load 0 late (answer_load 1 early two_loads)

      two_loads-Reach : Reach (inventory_page host) (idle s) two_loads
      two_loads-Reach = subst (Reach (inventory_page host) (idle s)) chosen-two_loads (
          next
            (subst (Reach (inventory_page host) (idle s)) mounted-one_load
              (next here (event mounted tt)))
            (event (category_chosen v) tt))

  -- A load has no guard against an older one. From any state, if the page loads, the user chooses
  -- another category, and the replies to the second load come before those to the first, the page
  -- comes to rest with the new filters and with the materials of the old ones.
  pub stale_load :
      (s : InventoryPage) (v : Text) (early late : Replies)
      → eq_text s.filters.category_filter v ≡ false
      → (c : Config InventoryPage) × Reach (inventory_page host) (idle s) c
        × (c.waiting ≡ [])
        × (c.state.filters ≡ record (s.filters) { category_filter = v })
        × (c.state.materials ≡ next_materials s.filters late.materials.materials late.lots.lots)
  unfolding chosen loaded two_loads overtaken
  stale_load s v early late changed =
      let ends =
        second_then_first s.filters (chosen s v changed) early late (two_loads s v changed).state in
      (
        overtaken s v changed early late,
        two_replies s v changed early late (two_loads s v changed) (two_loads-Reach s v changed),
        ap (λ c. c.waiting) ends,
        ap (λ c. c.state.filters) ends,
        ap (λ c. c.state.materials) ends,
      )
