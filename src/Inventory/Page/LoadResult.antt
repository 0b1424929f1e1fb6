-- ===== src/Inventory/Page/LoadResult.antt =====
-- What a load asks for, and what it comes to when nothing comes between.
use home_stock.Common.{
  ◌≡◌, ◌≢◌, ◌↔◌, ◌⊎◌, refl, ap, inl, inr, Option, none, some, Bool, true, false, List, [], ◌∷◌,
  length, ==_iff, ◌==◌, Bool-cases, if◌then◌else◌,
}
use mathlib.Core.List.{Memᴰ}
use home_stock.Js.Text.{Text, lit, eq_text, eq_text_iff, or_none}
use home_stock.Js.Host.{Host}
use home_stock.Js.Outcome.{Outcome, ok, err, message_or}
use home_stock.Types.{MaterialSummary, StockLot}
use home_stock.Api.{
  Call, Reply, promise_all, list_materials, list_lots, list_categories, MaterialQuery,
  StockLotQuery,
}
use home_stock.History.Search.{filter-Mem, any-Mem}
use home_stock.Async.{Task, ◌>>=◌, catch, finally, resolve, update, to_task}
use home_stock.Async.Promise.{Arrival, IsSettled, IsSettled-outcome, settled, arrive}
use home_stock.Async.Pool.{Config, settle, answer, fire}
use home_stock.Inventory.InboundLotDialog
use home_stock.Inventory.Page.{
  Filters, InventoryPage, material_query, lot_query, loaded, next_materials, next_selected, has_lot,
  has_material, reopen_inbound,
}
use home_stock.Inventory.Page.Loading.{
  idle, LoadReply, load_calls, concluding, waiting_load, settle-load_data,
}
use home_stock.Inventory.Page.Events.{refresh_clicked, react, inventory_page}

-- What is asked for under these filters: no category and no location if all are chosen, the
-- debounced search if it is not blank, and the empty ones if they are to be shown.
abbrev unless_every : Text → Option Text
unless_every v = if eq_text v (lit "__all__") then none else some v

abbrev if_set : Bool → Option Bool
if_set b = if b then some true else none

abbrev pub materials_wanted : Filters → MaterialQuery
materials_wanted f = record {
  category_id = unless_every f.category_filter;
  keyword = or_none f.debounced_search;
  show_zero_stock = if_set f.show_zero_stock;
}

abbrev pub lots_wanted : Filters → StockLotQuery
lots_wanted f = record {
  material_id = none;
  category_id = unless_every f.category_filter;
  location = unless_every f.location_filter;
  status = none;
  keyword = or_none f.debounced_search;
  expiring_soon = none;
  show_zero_stock = if_set f.show_zero_stock;
}

wanted-load_calls :
    (f : Filters)
    → load_calls f
      ≡ promise_all
          (list_materials (materials_wanted f))
          (promise_all (list_lots (lots_wanted f)) list_categories)
unfolding material_query lot_query
wanted-load_calls f = refl

abbrev pub HasId : Text → List MaterialSummary → Type 0
HasId id ms = (m : MaterialSummary) × Memᴰ m ms × (m.id ≡ id)

abbrev pub first_or_blank : List MaterialSummary → Text
first_or_blank [] = []
first_or_blank (m ∷ ms) = m.id

-- The page `after` a load with good replies, where it was `before`.
pub record IsLoaded (f : Filters) (x : LoadReply) (before after : InventoryPage) : Type 0 where
  -- the materials of the reply; under a location, those that have a lot in the reply
  pub materials :
      (m : MaterialSummary)
      → Memᴰ m after.materials ↔ (
          Memᴰ m x.0.materials
          × ((f.location_filter ≡ lit "__all__")
              ⊎ ((lot : StockLot) × Memᴰ lot x.1.0.lots × (lot.material_id ≡ m.id))))
  -- in the order of the reply, if all locations are chosen
  pub every : f.location_filter ≡ lit "__all__" → after.materials ≡ x.0.materials
  pub lots : after.lots ≡ x.1.0.lots
  pub categories : after.categories ≡ x.1.1.categories
  -- the selection is kept as long as its material is there, and is otherwise the first one
  pub kept :
      HasId before.selected_material_id after.materials
      → after.selected_material_id ≡ before.selected_material_id
  pub gone :
      ¬ HasId before.selected_material_id after.materials
      → after.selected_material_id ≡ first_or_blank after.materials
  pub same_page : length after.materials ≡ length before.materials → after.page ≡ before.page
  pub first_page : length after.materials ≢ length before.materials → after.page ≡ 1
  -- the form is left alone while its dialog is closed
  pub form : before.inbound_open ≡ false → after.inbound ≡ before.inbound
  pub loading : after.loading ≡ false
  pub error : after.error ≡ []
  pub filters : after.filters ≡ before.filters
  pub search : after.search ≡ before.search

has_material_iff :
    (ms : List MaterialSummary) (id : Text) → (has_material ms id ≡ true) ↔ HasId id ms
has_material_iff ms id =
    let (from, back) = any-Mem (λ m. eq_text m.id id) ms in
    (
      λ h. let (m, at, e) = from h in (m, at, (eq_text_iff m.id id).0 e),
      λ (m, at, e). back (m, at, (eq_text_iff m.id id).1 e),
    )

has_lot_iff :
    (lots : List StockLot) (id : Text)
    → (has_lot lots id ≡ true) ↔ ((lot : StockLot) × Memᴰ lot lots × (lot.material_id ≡ id))
has_lot_iff lots id =
    let (from, back) = any-Mem (λ lot. eq_text lot.material_id id) lots in
    (
      λ h. let (lot, at, e) = from h in (lot, at, (eq_text_iff lot.material_id id).0 e),
      λ (lot, at, e). back (lot, at, (eq_text_iff lot.material_id id).1 e),
    )

next_materials-Mem :
    (f : Filters) (ms : List MaterialSummary) (lots : List StockLot) (m : MaterialSummary)
    → Memᴰ m (next_materials f ms lots) ↔ (
        Memᴰ m ms
        × ((f.location_filter ≡ lit "__all__")
            ⊎ ((lot : StockLot) × Memᴰ lot lots × (lot.material_id ≡ m.id))))
unfolding next_materials
next_materials-Mem f ms lots m =
    let same = eq_text_iff f.location_filter (lit "__all__") in
    let (from, back) = filter-Mem (λ x. has_lot lots x.id) m ms in
    elim (Bool-cases (eq_text f.location_filter (lit "__all__"))) [
      | inl every ↦ rw every (λ at. (at, inl (same.0 every)), λ (at, h). at)
      | inr chosen ↦ rw chosen (
        λ at. ((from at).0, inr ((has_lot_iff lots m.id).0 (from at).1)),
        λ (at, h). elim h [
          | inl every ↦ let every' = same.1 every in cc
          | inr has ↦ back (at, (has_lot_iff lots m.id).1 has)
        ],
      )
    ]

next_materials-every :
    (f : Filters) (ms : List MaterialSummary) (lots : List StockLot)
    → f.location_filter ≡ lit "__all__"
    → next_materials f ms lots ≡ ms
unfolding next_materials
next_materials-every f ms lots e =
    let every = (eq_text_iff f.location_filter (lit "__all__")).1 e in rw every refl

next_selected-kept :
    (ms : List MaterialSummary) (current : Text)
    → (HasId current ms → next_selected ms current ≡ current)
      × (¬ HasId current ms → next_selected ms current ≡ first_or_blank ms)
unfolding next_selected
next_selected-kept ms current = elim (Bool-cases (has_material ms current)) [
  | inl has ↦ rw has (λ h. refl, λ h. absurd (h ((has_material_iff ms current).0 has)))
  | inr lacks ↦
      rw lacks (λ h. let has = (has_material_iff ms current).1 h in cc, λ h. first_id-first ms)
]
  where
    first_id-first :
        (ms : List MaterialSummary)
        → (if false then current else elim ms [ [] ↦ [] | m ∷ (ms → r) ↦ m.id ]) ≡ first_or_blank ms
    first_id-first [] = refl
    first_id-first (m ∷ ms) = refl

module _ (host : Host) (f : Filters) where
  loaded-IsLoaded :
      (x : LoadReply) (s : InventoryPage)
      → IsLoaded f x
          (record s { error = [] })
          (record (loaded host f x.0.materials x.1.0.lots x.1.1.categories
            (record s { loading = true; error = [] })) { loading = false })
  unfolding loaded reopen_inbound InboundLotDialog.on_open
  loaded-IsLoaded x s =
      let next = next_materials f x.0.materials x.1.0.lots in
      let (kept, gone) = next_selected-kept next s.selected_material_id in
      record {
        materials = next_materials-Mem f x.0.materials x.1.0.lots;
        every = next_materials-every f x.0.materials x.1.0.lots;
        lots = refl;
        categories = refl;
        kept = kept;
        gone = gone;
        same_page = λ e. rw ((==_iff (length next) (length s.materials)).1 e) refl;
        first_page = λ h. elim (Bool-cases (length next == length s.materials)) [
          | inl same ↦ absurd (h ((==_iff (length next) (length s.materials)).0 same))
          | inr other ↦ rw other refl
        ];
        form = λ closed. rw closed refl;
        loading = refl;
        error = refl;
        filters = refl;
        search = refl;
      }

  -- What a load makes of the page when its calls come to o.
  abbrev pub Concludes : Outcome LoadReply → InventoryPage → InventoryPage → Type 0
  Concludes (ok x) before after = IsLoaded f x before after
  Concludes (err e) before after =
      after
      ≡ record before { error = message_or (host.translate "loadingFailed") e; loading = false }

  concluding-Concludes :
      (o : Outcome LoadReply) (s : InventoryPage)
      → ((settle (concluding host f o) (record s { loading = true; error = [] }) []).waiting ≡ [])
        × Concludes o
            (record s { error = [] })
            (settle (concluding host f o) (record s { loading = true; error = [] }) []).state
  unfolding concluding settle to_task ◌>>=◌ catch finally resolve update
  concluding-Concludes (ok x) s = (refl, loaded-IsLoaded x s)
  concluding-Concludes (err e) s = (refl, refl)

-- The user refreshes a page at rest, and its calls come to what they come to.
pub refreshing : Host → InventoryPage → Config InventoryPage
refreshing host s = fire (inventory_page host) (idle s) refresh_clicked

abbrev pub wanted : Filters → Call
wanted f =
    promise_all (list_materials (materials_wanted f))
      (promise_all (list_lots (lots_wanted f)) list_categories)

abbrev pub Asks : Config InventoryPage → Call → Type 0
Asks c call = (k : Outcome (Reply call) → Task InventoryPage) × (c.waiting ≡ Task.await call k ∷ [])

-- A refresh of a page at rest asks for the materials, lots and categories under its filters: the
-- category and the location unless all are chosen, the debounced search unless it is blank, and
-- the empty ones if they are to be shown. Where these three calls come to what they come to, in
-- whatever order in time, the page is then at rest again. If all have succeeded, it shows the
-- materials of the reply (in its order under all locations, those that have a lot in the reply
-- under one), the lots and the categories; it keeps its selection if that material is there, and
-- otherwise selects the first one; it keeps its page number if there are as many materials as
-- before, and otherwise goes to page 1; it leaves a closed form alone, does not load and shows
-- no error. Otherwise nothing but the message of the error that came first in time is new, and
-- it does not load.
pub refreshed-Concludes :
    (host : Host) (s : InventoryPage) (arrivals : (c : Call) → Arrival (Reply c))
    (o : Outcome LoadReply)
    → IsSettled
        (arrivals (list_materials (materials_wanted s.filters)))
        (arrivals (list_lots (lots_wanted s.filters)))
        (arrivals list_categories)
        o
    → Asks (refreshing host s) (wanted s.filters)
      × ((answer (refreshing host s) 0 (settled arrivals)).waiting ≡ [])
      × Concludes host s.filters o
          (record s { error = [] })
          (answer (refreshing host s) 0 (settled arrivals)).state
unfolding refreshing fire react answer settle waiting_load material_query lot_query arrive
refreshed-Concludes host s arrivals o h =
    let start = settle-load_data host s.filters s [] in
    let e =
      IsSettled-outcome (arrivals (list_materials (materials_wanted s.filters)))
        (arrivals (list_lots (lots_wanted s.filters))) (arrivals list_categories) o h in
    let (empty, after) = concluding-Concludes host s.filters o s in
    (
      (concluding host s.filters, ap (λ c. c.waiting) start),
      rw (start, e) empty,
      rw (start, e) after,
    )
