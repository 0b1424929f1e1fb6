-- ===== src/Common/Sort.antt =====
-- `xs.sort(compare)`, which is stable, by insertion: an item goes in front of the first one that it
-- comes before.
use mathlib.Core.Path.{◌≡◌}
use mathlib.Core.Logic.{inl, inr}
use mathlib.Core.Bool.{Bool, true, false}
use mathlib.Core.List.{List, [], ◌∷◌, ◌++◌, Perm, perm_middle, append-nil}
use mathlib.Core.List.Perm
use mathlib.Core.Path.{subst}
use home_stock.Common.Tests.{if◌then◌else◌, Bool-cases}

module _ {A : Type 0} (before : A → A → Bool) where
  unfoldable pub insert_by : A → List A → List A
  insert_by x [] = x ∷ []
  insert_by x (y ∷ ys) = let rest = insert_by x ys in if before x y then x ∷ y ∷ ys else y ∷ rest

  unfoldable pub sort_onto : List A → List A → List A
  sort_onto [] sorted = sorted
  sort_onto (x ∷ xs) sorted = sort_onto xs (insert_by x sorted)

  unfoldable pub sort_by : List A → List A
  unfolding sort_onto insert_by
  sort_by xs = sort_onto xs []

  -- No item comes before the one in front of it.
  abbrev pub IsOrdered : List A → Type 0
  IsOrdered [] = Unit {0}
  IsOrdered (x ∷ []) = Unit {0}
  IsOrdered (x ∷ y ∷ ys) = (before y x ≡ false) × IsOrdered (y ∷ ys)

  insert_by-Perm : (x : A) (ys : List A) → Perm (insert_by x ys) (x ∷ ys)
  unfolding insert_by
  insert_by-Perm x [] = Perm.refl (x ∷ [])
  insert_by-Perm x (y ∷ ys) = elim (Bool-cases (before x y)) [
    | inl less ↦ rw less (Perm.refl (x ∷ y ∷ ys))
    | inr not_less ↦ rw not_less (Perm.trans (Perm.cons y (insert_by-Perm x ys)) (Perm.swap x y ys))
  ]

  sort_onto-Perm : (xs sorted : List A) → Perm (sort_onto xs sorted) (xs ++ sorted)
  unfolding sort_onto
  sort_onto-Perm [] sorted = Perm.refl sorted
  sort_onto-Perm (x ∷ xs) sorted =
      Perm.trans (sort_onto-Perm xs (insert_by x sorted))
        (Perm.trans (Perm.append_left xs (insert_by-Perm x sorted)) (perm_middle {a = x} xs sorted))

  pub sort_by-Perm : (xs : List A) → Perm (sort_by xs) xs
  unfolding sort_by
  sort_by-Perm xs = subst (Perm (sort_by xs)) (append-nil xs) (sort_onto-Perm xs [])

  module _ (asym : (x y : A) → before x y ≡ true → before y x ≡ false) where
    insert_by_behind :
        (x y : A) (ys : List A)
        → before x y ≡ false
        → IsOrdered (y ∷ ys)
        → IsOrdered (y ∷ insert_by x ys)
    unfolding insert_by
    insert_by_behind x y [] e h = (e, tt)
    insert_by_behind x y (z ∷ zs) e h = elim (Bool-cases (before x z)) [
      | inl less ↦ rw less (e, (asym x z less, h.1))
      | inr not_less ↦ rw not_less (h.0, insert_by_behind x z zs not_less h.1)
    ]

    insert_by-IsOrdered : (x : A) (ys : List A) → IsOrdered ys → IsOrdered (insert_by x ys)
    unfolding insert_by
    insert_by-IsOrdered x [] h = tt
    insert_by-IsOrdered x (y ∷ ys) h = elim (Bool-cases (before x y)) [
      | inl less ↦ rw less (asym x y less, h)
      | inr not_less ↦ rw not_less (insert_by_behind x y ys not_less h)
    ]

    sort_onto-IsOrdered : (xs sorted : List A) → IsOrdered sorted → IsOrdered (sort_onto xs sorted)
    unfolding sort_onto
    sort_onto-IsOrdered [] sorted h = h
    sort_onto-IsOrdered (x ∷ xs) sorted h =
        sort_onto-IsOrdered xs (insert_by x sorted) (insert_by-IsOrdered x sorted h)

    pub sort_by-IsOrdered : (xs : List A) → IsOrdered (sort_by xs)
    unfolding sort_by
    sort_by-IsOrdered xs = sort_onto-IsOrdered xs [] tt
