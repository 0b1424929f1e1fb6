-- ===== src/Inventory/Page/Search/Laws.antt =====
-- What the page loads with while its user types.
use home_stock.Common.{
  ℕ, ◌+◌, ◌≡◌, refl, ap, ◌∙◌, Bool, true, false, List, [], ◌∷◌, length, length-append, leb, arith,
  if◌then◌else◌, Bool-cases, inl, inr,
}
use home_stock.Js.Text.{Text, eq_text, eq_text_iff, eq_text_refl}
use home_stock.Js.Host.{Host}
use home_stock.Debounce.{changed, first_render}
use home_stock.Debounce.Refine.{last_settled, total, pending, tick-pending, changed-tick}
use home_stock.Async.{◌>>=◌, catch, finally, update, call_three, to_task}
use home_stock.Async.Pool.{Config, fire, settle}
use home_stock.Inventory.Page.{Filters, InventoryPage, load_data, load_body}
use home_stock.Inventory.Page.Initial.{initial_page, initial_search, initial_filters}
use home_stock.Inventory.Page.Events.{
  search_typed, search_settled, mounted, same_filters, refilter, react, inventory_page,
}
use home_stock.Inventory.Page.Search.{Searching, search_delay, searching, settle_at, typed, typing}

same_bool : (b : Bool) → (if b then b else if b then false else true) ≡ true
same_bool true = refl
same_bool false = refl

-- The filters with another search are the same if the search is.
same_filters-eq_text :
    (f : Filters) (v : Text)
    → same_filters f (record f { debounced_search = v }) ≡ eq_text f.debounced_search v
same_filters-eq_text f v = elim (Bool-cases (eq_text f.debounced_search v)) [
  | inl same ↦
      rw
        (
          eq_text_refl f.category_filter,
          eq_text_refl f.location_filter,
          same,
          same_bool f.show_zero_stock,
        )
        refl
  | inr other ↦ rw (eq_text_refl f.category_filter, eq_text_refl f.location_filter, other) refl
]

module _ (host : Host) where
  abbrev searched : Config InventoryPage → Text
  searched c = c.state.filters.debounced_search

  -- A settled text is the one that the page loads with, and it starts a load unless it was so before.
  search_settled-fire :
      (c : Config InventoryPage) (v : Text)
      → (searched (fire (inventory_page host) c (search_settled v)) ≡ v)
        × (length (fire (inventory_page host) c (search_settled v)).waiting
            ≡ length c.waiting + (if eq_text (searched c) v then 0 else 1))
  unfolding fire react refilter settle load_data load_body to_task ◌>>=◌ catch finally update
      call_three
  search_settled-fire c v = elim (Bool-cases (eq_text (searched c) v)) [
    | inl same ↦
        rw (same_filters-eq_text c.state.filters v, same)
          ((eq_text_iff (searched c) v).0 same, omega arith)
    | inr other ↦
        rw (same_filters-eq_text c.state.filters v, other) (refl, length-append c.waiting _)
  ]

  search_settled-fire_from :
      (c : Config InventoryPage) (x v : Text)
      → searched c ≡ x
      → (searched (fire (inventory_page host) c (search_settled v)) ≡ v)
        × (length (fire (inventory_page host) c (search_settled v)).waiting
            ≡ length c.waiting + (if eq_text x v then 0 else 1))
  search_settled-fire_from c x v e =
      let (s, n) = search_settled-fire c v in
      (s, n ∙ ap (λ y. length c.waiting + (if eq_text y v then 0 else 1)) e)

  search_typed-fire :
      (c : Config InventoryPage) (v : Text)
      → fire (inventory_page host) c (search_typed v)
        ≡ record { state = record (c.state) { search = v }; waiting = c.waiting }
  unfolding fire react settle
  search_typed-fire c v = refl

-- How often the last text that has stood for the delay becomes another.
abbrev pub settlements : ℕ → Text → Text → List (Text × ℕ) → ℕ → ℕ
settlements delay x v [] elapsed = if eq_text x (if leb delay elapsed then v else x) then 0 else 1
settlements delay x v ((w, gap) ∷ rest) elapsed =
    let next = if leb delay gap then v else x in
    (if eq_text x next then 0 else 1) + settlements delay next w rest elapsed

module _ (host : Host) where
  abbrev waits : ℕ → Text → Text → Config InventoryPage → Searching
  waits now x v c = record { page = c; timer = pending search_delay x v (now + search_delay) }

  abbrev after_typing : Config InventoryPage → Text → Text → Config InventoryPage
  after_typing c x w =
      fire (inventory_page host) (fire (inventory_page host) c (search_settled x)) (search_typed w)

  typed-waits :
      (now gap : ℕ) (x v w : Text) (c : Config InventoryPage)
      → typed host (now + gap) w (waits now x v c)
        ≡ waits
            (now + gap)
            (if leb search_delay gap then v else x)
            w
            (after_typing c (if leb search_delay gap then v else x) w)
  unfolding typed settle_at
  typed-waits now gap x v w c = λ i. record {
    page = after_typing c (tick-pending search_delay now gap x v i) w;
    timer = changed-tick search_delay now gap x v w i;
  }

  after_typing-searched :
      (c : Config InventoryPage) (y x w : Text)
      → searched host c ≡ y
      → (searched host (after_typing c x w) ≡ x)
        × (length (after_typing c x w).waiting ≡ length c.waiting + (if eq_text y x then 0 else 1))
  after_typing-searched c y x w e =
      let (s, n) = search_settled-fire_from host c y x e in
      (
        ap (λ d. searched host d) (search_typed-fire host _ w) ∙ s,
        ap (λ d. length d.waiting) (search_typed-fire host _ w) ∙ n,
      )

  typing-waits :
      (now gap : ℕ) (x v w : Text) (rest : List (Text × ℕ)) (c : Config InventoryPage)
      → typing host now ((w, gap) ∷ rest) (waits now x v c)
        ≡ typing host (now + gap) rest (
            waits
              (now + gap)
              (if leb search_delay gap then v else x)
              w
              (after_typing c (if leb search_delay gap then v else x) w))
  unfolding typing
  typing-waits now gap x v w rest c =
      ap (typing host (now + gap) rest) (typed-waits now gap x v w c)

  settle_at-waits :
      (now elapsed : ℕ) (x v : Text) (c : Config InventoryPage)
      → (settle_at host (now + elapsed) (waits now x v c)).page
        ≡ fire (inventory_page host) c (search_settled (if leb search_delay elapsed then v else x))
  unfolding settle_at
  settle_at-waits now elapsed x v c =
      ap (λ y. fire (inventory_page host) c (search_settled y))
        (tick-pending search_delay now elapsed x v)

  -- The page loads with the last text that has stood for the delay, and has started a load whenever
  -- that became another.
  abbrev IsSearched : ℕ → Text → Text → List (Text × ℕ) → ℕ → Config InventoryPage → ℕ → Type 0
  IsSearched now x v changes elapsed d loads =
      (searched host d ≡ last_settled search_delay x v changes elapsed)
      × (length d.waiting ≡ loads + settlements search_delay x v changes elapsed)

  typing-IsSearched :
      (now elapsed : ℕ) (changes : List (Text × ℕ)) (x v : Text) (c : Config InventoryPage)
      → searched host c ≡ x
      → IsSearched now x v changes elapsed
          (settle_at host
            (now + (total search_delay changes + elapsed))
            (typing host now changes (waits now x v c))).page
          (length c.waiting)
  unfolding typing
  typing-IsSearched now elapsed [] x v c e =
      let time : now + (0 + elapsed) ≡ now + elapsed = omega arith in
      rw (time, settle_at-waits now elapsed x v c)
        (search_settled-fire_from host c x (if leb search_delay elapsed then v else x) e)
  typing-IsSearched now elapsed ((w, gap) ∷ rest) x v c e =
      let next = if leb search_delay gap then v else x in
      let time : now + (gap + total search_delay rest + elapsed)
          ≡ now + gap + (total search_delay rest + elapsed) =
        omega arith in
      let (s, n) = after_typing-searched c x next w e in
      let (ih, loads) =
        typing-IsSearched (now + gap) elapsed rest next w (after_typing c next w) s in
      rw (time, typing-waits now gap x v w rest c) (ih, omega (arith, loads, n))

  -- Once the page is open, at whatever address, and whatever is typed into its search, each text
  -- with the time since the one before it, while no reply has come: at any time the page loads with
  -- the last text that had stood for 300 milliseconds, or the keyword of the address, and besides
  -- the first load it has started one for each time that this text became another.
  pub typing-last_settled :
      (search : Text) (now : ℕ) (changes : List (Text × ℕ)) (elapsed : ℕ)
      → let first = initial_search host search in
        let x =
          settle_at host
            (now + (total search_delay changes + elapsed))
            (typing host now changes (searching host search now)) in
        (x.page.state.filters.debounced_search
          ≡ last_settled search_delay first first changes elapsed)
        × (length x.page.waiting ≡ 1 + settlements search_delay first first changes elapsed)
  unfolding searching first_render changed fire react settle load_data load_body to_task ◌>>=◌ catch
      finally update call_three initial_page initial_filters
  typing-last_settled search now changes elapsed =
      let first = initial_search host search in
      typing-IsSearched now elapsed changes first first
        (fire (inventory_page host) (record { state = initial_page host search; waiting = [] })
          mounted)
        refl
