-- ===== src/Shopping/Laws.antt =====
-- What the list and its stored copy keep.
use home_stock.Common.{
  not, none, ◌++◌, subst, ◌≡◌, refl, ◌∙◌, Option, some, Bool, true, List, [], ◌∷◌, Bool-cases, inl,
  inr, filter, All, All-append,
}
use home_stock.Js.Text.{Text, truthy, trim, eq_text}
use home_stock.Js.Text.Trim.{IsTrimmed, trim-IsTrimmed}
use home_stock.Shopping.{
  ShoppingItem, list, Storage, Codec, load_items, ShoppingPage, save_items, mount, add_item,
  toggle_item, Event, typed, added, toggled, react, run,
}

-- `JSON.parse` reads what `JSON.stringify` has written, which is not blank.
pub record IsCodec (codec : Codec) : Type 0 where
  pub round_trip : (items : List ShoppingItem) → codec.parse (codec.stringify items) ≡ list items
  pub not_blank : (items : List ShoppingItem) → truthy (codec.stringify items) ≡ true

run-some :
    (codec : Codec) (e : Event) (es : List Event) (s t : ShoppingPage)
    → react codec e s ≡ some t
    → run codec (e ∷ es) s ≡ run codec es t
unfolding run
run-some codec e es s t h = rw (run, h) refl

-- The page with a new item, and without an item.
abbrev with_item : Text → Text → ShoppingPage → ShoppingPage
with_item id now s = record s {
  items = s.items ++ record { id = id; name = trim s.input_value; created_at = now } ∷ [];
  input_value = [];
}

abbrev without : Text → ShoppingPage → ShoppingPage
without id s = record s { items = filter (λ item. not (eq_text item.id id)) s.items }

module _ (codec : Codec) where
  -- What is stored are the items, and it can be read and written.
  abbrev IsStored : ShoppingPage → Type 0
  IsStored s =
      (s.storage.readable ≡ true)
      × (s.storage.writable ≡ true)
      × (s.storage.items ≡ some (codec.stringify s.items))

  -- The page is there, with P.
  abbrev Stays : (ShoppingPage → Type 0) → Option ShoppingPage → Type 0
  Stays P o = (t : ShoppingPage) × (o ≡ some t) × P t

  save_items-IsStored :
      (s : ShoppingPage)
      → s.storage.readable ≡ true
      → s.storage.writable ≡ true
      → Stays (λ t. IsStored t × (t.items ≡ s.items)) (save_items codec s)
  unfolding save_items
  save_items-IsStored s readable writable = (
    record s { storage = record (s.storage) { items = some (codec.stringify s.items) } },
    rw writable refl,
    ((readable, writable, refl), refl),
  )

  react-IsStored : (e : Event) (s : ShoppingPage) → IsStored s → Stays IsStored (react codec e s)
  unfolding react add_item toggle_item
  react-IsStored (typed v) s h = (record s { input_value = v }, refl, h)
  react-IsStored (added id now) s h = elim (Bool-cases (truthy (trim s.input_value))) [
    | inl named ↦ rw named (
        let (t, e, (kept, same)) = save_items-IsStored (with_item id now s) h.0 h.1 in (t, e, kept))
    | inr blank ↦ rw blank (s, refl, h)
  ]
  react-IsStored (toggled id) s h =
      let (t, e, (kept, same)) = save_items-IsStored (without id s) h.0 h.1 in (t, e, kept)

  run-Stays :
      (P : ShoppingPage → Type 0)
      → ((e : Event) (s : ShoppingPage) → P s → Stays P (react codec e s))
      → (es : List Event) (s : ShoppingPage) → P s
      → Stays P (run codec es s)
  unfolding run
  run-Stays P keeps [] s h = (s, refl, h)
  run-Stays P keeps (e ∷ es) s h =
      let (t, eq, kept) = keeps e s h in
      let (u, eq', kept') = run-Stays P keeps es t kept in
      (u, run-some codec e es s t eq ∙ eq', kept')

  mount-IsStored :
      (storage : Storage) (xs : List ShoppingItem)
      → storage.readable ≡ true
      → storage.writable ≡ true
      → load_items codec storage ≡ some xs
      → Stays (λ t. IsStored t × (t.items ≡ xs)) (mount codec storage)
  unfolding mount
  mount-IsStored storage xs readable writable loaded =
      rw (mount, loaded)
        (save_items-IsStored (record { items = xs; input_value = []; storage = storage }) readable
          writable)

  IsStored-load_items :
      (s : ShoppingPage) → IsCodec codec → IsStored s → load_items codec s.storage ≡ some s.items
  unfolding load_items
  IsStored-load_items s h (readable, writable, kept) =
      rw (readable, kept, h.not_blank s.items, h.round_trip s.items) refl

-- Where `JSON.parse` reads what `JSON.stringify` has written, and that is not blank, and where
-- `localStorage` can be read and written and the page can render what it holds: the page opens with
-- the stored items, it is there after whatever the user does, and the page that is opened next, with
-- what is stored then, shows the same items.
pub mount-run :
    (codec : Codec) (before : Storage) (xs : List ShoppingItem) (es : List Event)
    → IsCodec codec
    → before.readable ≡ true
    → before.writable ≡ true
    → load_items codec before ≡ some xs
    → (first last next : ShoppingPage) × (mount codec before ≡ some first)
      × (first.items ≡ xs)
      × (run codec es first ≡ some last)
      × (mount codec last.storage ≡ some next)
      × (next.items ≡ last.items)
mount-run codec before xs es h readable writable loaded =
    let (first, opens, (kept, same)) = mount-IsStored codec before xs readable writable loaded in
    let (last, runs, kept') = run-Stays codec _ (react-IsStored codec) es first kept in
    let (next, opens', (kept'', same')) =
      mount-IsStored codec last.storage last.items kept'.0 kept'.1
        (IsStored-load_items codec last h kept') in
    (first, last, next, opens, same, runs, opens', same')

-- An item with a name, without white space at its ends.
abbrev pub IsNamed : ShoppingItem → Type 0
IsNamed item = (truthy item.name ≡ true) × IsTrimmed item.name

All-filter :
    (p : ShoppingItem → Bool) (xs : List ShoppingItem) → All IsNamed xs → All IsNamed (filter p xs)
All-filter p [] h = tt
All-filter p (x ∷ xs) h = elim (Bool-cases (p x)) [
  | inl kept ↦ rw kept (h.0, All-filter p xs h.1)
  | inr dropped ↦ rw dropped (All-filter p xs h.1)
]

-- Where the page is there, every item is named.
abbrev AllNamed : Option ShoppingPage → Type 0
AllNamed none = Unit
AllNamed (some t) = All IsNamed t.items

module _ (codec : Codec) where
  save_items-AllNamed : (s : ShoppingPage) → All IsNamed s.items → AllNamed (save_items codec s)
  unfolding save_items
  save_items-AllNamed s h = elim (Bool-cases s.storage.writable) [
    | inl usable ↦ rw usable h
    | inr lost ↦ rw lost tt
  ]

  react-AllNamed : (e : Event) (s : ShoppingPage) → All IsNamed s.items → AllNamed (react codec e s)
  unfolding react add_item toggle_item
  react-AllNamed (typed v) s h = h
  react-AllNamed (added id now) s h = elim (Bool-cases (truthy (trim s.input_value))) [
    | inl named ↦ rw named (
        save_items-AllNamed (with_item id now s)
          (All-append IsNamed s.items _ h ((named, trim-IsTrimmed s.input_value), tt)))
    | inr blank ↦ rw blank h
  ]
  react-AllNamed (toggled id) s h = save_items-AllNamed (without id s) (All-filter _ s.items h)

  then-AllNamed :
      (k : ShoppingPage → Option ShoppingPage)
      → ((t : ShoppingPage) → All IsNamed t.items → AllNamed (k t))
      → (o : Option ShoppingPage) → AllNamed o
      → AllNamed (elim o [ none ↦ none | some t ↦ k t ])
  then-AllNamed k h none named = tt
  then-AllNamed k h (some t) named = h t named

  run-AllNamed :
      (es : List Event) (s : ShoppingPage) → All IsNamed s.items → AllNamed (run codec es s)
  unfolding run
  run-AllNamed [] s h = h
  run-AllNamed (e ∷ es) s h =
      then-AllNamed (run codec es) (run-AllNamed es) (react codec e s) (react-AllNamed e s h)

  save_items-Stays :
      (s : ShoppingPage)
      → s.storage.writable ≡ true
      → Stays codec (λ t. t.storage.writable ≡ true) (save_items codec s)
  unfolding save_items
  save_items-Stays s h = (
    record s { storage = record (s.storage) { items = some (codec.stringify s.items) } },
    rw h refl,
    h,
  )

  react-Stays :
      (e : Event) (s : ShoppingPage)
      → s.storage.writable ≡ true
      → Stays codec (λ t. t.storage.writable ≡ true) (react codec e s)
  unfolding react add_item toggle_item
  react-Stays (typed v) s h = (record s { input_value = v }, refl, h)
  react-Stays (added id now) s h = elim (Bool-cases (truthy (trim s.input_value))) [
    | inl named ↦ rw named (save_items-Stays (with_item id now s) h)
    | inr blank ↦ rw blank (s, refl, h)
  ]
  react-Stays (toggled id) s h = save_items-Stays (without id s) h

-- Where every item has a name that is not blank and has no white space at its ends: if the page is
-- there after whatever the user does, so have the items then; and it is there if `localStorage` can
-- be written.
pub run-All :
    (codec : Codec) (es : List Event) (s : ShoppingPage)
    → All IsNamed s.items
    → ((t : ShoppingPage) → run codec es s ≡ some t → All IsNamed t.items)
      × (s.storage.writable ≡ true → (t : ShoppingPage) × (run codec es s ≡ some t))
run-All codec es s h = (
  λ t e. subst AllNamed e (run-AllNamed codec es s h),
  λ usable. let (t, e, kept) = run-Stays codec _ (react-Stays codec) es s usable in (t, e),
)
