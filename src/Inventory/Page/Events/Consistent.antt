-- ===== src/Inventory/Page/Events/Consistent.antt =====
-- The page's invariant, and what keeps it.
use home_stock.Common.{
  ℕ, zero, suc, ◌≤◌, ◌≡◌, refl, ap, sym, subst, ◌∙◌, ◌⊎◌, inl, inr, Bool, true, false, List, [],
  ◌∷◌, ◌||◌, arith, take, drop, if◌then◌else◌, Bool-cases, length,
}
use mathlib.Core.List.{Memᴰ}
use mathlib.Core.List.Memᴰ
use home_stock.Js.Text.{Text, eq_text, eq_text_iff, eq_text_refl}
use home_stock.Js.Host.{Host}
use home_stock.Types.{Category, MaterialSummary, StockLot}
use home_stock.Async.Pool.Keeps.{Keeps, keep_rules}
use home_stock.Inventory.Page.{
  Filters, InventoryPage, total_pages, paginated, has_material, next_materials, next_selected,
  loaded, load_data,
}

-- The selected id is that of a material in the table, or blank above an empty table.
abbrev pub IsSelected : List MaterialSummary → Text → Type 0
IsSelected materials id = (has_material materials id ≡ true) ⊎ ((materials ≡ []) × (id ≡ []))

abbrev pub IsConsistent : InventoryPage → Type 0
IsConsistent s =
    IsSelected s.materials s.selected_material_id
    × (1 ≤ s.page)
    × (s.page ≤ total_pages s.materials)
    × (s.expiring_open ≡ false)

or_true : (b : Bool) → (b || true) ≡ true
or_true true = refl
or_true false = refl

next_selected-IsSelected :
    (materials : List MaterialSummary) (current : Text)
    → IsSelected materials (next_selected materials current)
unfolding next_selected
next_selected-IsSelected [] current = inr (refl, refl)
next_selected-IsSelected (m ∷ ms) current = elim (Bool-cases (has_material (m ∷ ms) current)) [
  | inl found ↦
      let e : next_selected (m ∷ ms) current ≡ current =
        ap (λ b. if b then current else m.id) found in
      subst (IsSelected (m ∷ ms)) (sym e) (inl found)
  | inr missing ↦
      let e : next_selected (m ∷ ms) current ≡ m.id =
        ap (λ b. if b then current else m.id) missing in
      subst (IsSelected (m ∷ ms)) (sym e)
        (inl (ap (λ b. b || has_material ms m.id) (eq_text_refl m.id)))
]

pub one-le-total_pages : {A : Type 0} (xs : List A) → 1 ≤ total_pages xs
unfolding total_pages
one-le-total_pages xs = omega arith

total_pages-length :
    {A B : Type 0} (xs : List A) (ys : List B)
    → length xs ≡ length ys
    → total_pages xs ≡ total_pages ys
unfolding total_pages
total_pages-length xs ys e = omega arith

loaded-IsConsistent :
    (host : Host) (f : Filters) (materials : List MaterialSummary) (lots : List StockLot)
    (categories : List Category) (s : InventoryPage)
    → IsConsistent s
    → IsConsistent (loaded host f materials lots categories s)
unfolding loaded
loaded-IsConsistent host f materials lots categories s (selected, low, high, closed) =
    let next = next_materials f materials lots in
    (
      next_selected-IsSelected next s.selected_material_id,
      ground arith,
      ground (arith, total_pages-length s.materials next, one-le-total_pages next),
      closed,
    )

pub load_data-Keeps : (host : Host) (f : Filters) → Keeps IsConsistent (load_data host f)
unfolding load_data
load_data-Keeps host f = search (keep_rules, loaded-IsConsistent) depth 12

Memᴰ-take : {A : Type 0} {x : A} (n : ℕ) (xs : List A) → Memᴰ x (take n xs) → Memᴰ x xs
Memᴰ-take zero xs h = absurd (Memᴰ.not-nil h)
Memᴰ-take (suc n) [] h = absurd (Memᴰ.not-nil h)
Memᴰ-take (suc n) (y ∷ ys) (Memᴰ.head e) = Memᴰ.head e
Memᴰ-take (suc n) (y ∷ ys) (Memᴰ.tail h) = Memᴰ.tail (Memᴰ-take n ys h)

Memᴰ-drop : {A : Type 0} {x : A} (n : ℕ) (xs : List A) → Memᴰ x (drop n xs) → Memᴰ x xs
Memᴰ-drop zero xs h = h
Memᴰ-drop (suc n) [] h = h
Memᴰ-drop (suc n) (y ∷ ys) h = Memᴰ.tail (Memᴰ-drop n ys h)

has_material_of_mem :
    (m : MaterialSummary) (ms : List MaterialSummary) → Memᴰ m ms → has_material ms m.id ≡ true
has_material_of_mem m [] h = absurd (Memᴰ.not-nil h)
has_material_of_mem m (x ∷ xs) (Memᴰ.head e) =
    let same : eq_text x.id m.id ≡ true = (eq_text_iff x.id m.id).1 (ap (λ y. y.id) (sym e)) in
    rw same
has_material_of_mem m (x ∷ xs) (Memᴰ.tail h) =
    let later : has_material xs m.id ≡ true = has_material_of_mem m xs h in
    ap (λ b. eq_text x.id m.id || b) later ∙ or_true (eq_text x.id m.id)

pub paginated-has_material :
    (page : ℕ) (m : MaterialSummary) (ms : List MaterialSummary)
    → Memᴰ m (paginated page ms)
    → has_material ms m.id ≡ true
unfolding paginated
paginated-has_material page m ms h = has_material_of_mem m ms (Memᴰ-drop _ ms (Memᴰ-take _ _ h))
