-- ===== src/Inventory/Page/Pagination.antt =====
-- The pages of the materials table.
use home_stock.Common.{
  ℕ, zero, suc, ◌+◌, ◌-◌, ◌*◌, ◌≤◌, ◌≡◌, refl, ap, ◌∙◌, List, [], ◌∷◌, ◌++◌, arith, length, take,
  drop, length-take, length-drop,
}
use home_stock.Inventory.Page.{page_size, total_pages, paginated}

-- The pages from 1 to n, one after the other.
pub first_pages : {A : Type 0} → ℕ → List A → List A
first_pages zero xs = []
first_pages (suc n) xs = first_pages n xs ++ paginated (suc n) xs

module _ {A : Type 0} where
  take-nil : (n : ℕ) → take {A = A} n [] ≡ []
  take-nil zero = refl
  take-nil (suc n) = refl

  take-add : (m n : ℕ) (xs : List A) → take m xs ++ take n (drop m xs) ≡ take (m + n) xs
  take-add zero n xs = let e : zero + n ≡ n = omega arith in rw e
  take-add (suc m) n [] = rw (take-nil n, take-nil (suc m + n))
  take-add (suc m) n (x ∷ xs) =
      let e : suc m + n ≡ suc (m + n) = omega arith in rw e (ap (λ t. x ∷ t) (take-add m n xs))

  take-all : (n : ℕ) (xs : List A) → length xs ≤ n → take n xs ≡ xs
  take-all zero [] h = refl
  take-all zero (x ∷ xs) h = absurd (omega arith)
  take-all (suc n) [] h = refl
  take-all (suc n) (x ∷ xs) h = ap (λ t. x ∷ t) (take-all n xs (omega arith))

  first_pages-take : (n : ℕ) (xs : List A) → first_pages n xs ≡ take (n * page_size) xs
  unfolding first_pages paginated
  first_pages-take zero xs = refl
  first_pages-take (suc n) xs =
      let start : (suc n - 1) * page_size ≡ n * page_size = omega arith in
      let size : suc n * page_size - n * page_size ≡ page_size = omega arith in
      let stop : n * page_size + page_size ≡ suc n * page_size = omega arith in
      rw (first_pages-take n xs, start, size)
        (take-add (n * page_size) page_size xs ∙ ap (λ k. take k xs) stop)

  -- The pages from 1 to the last, one after the other, are the materials: none is lost, repeated or
  -- moved.
  pub first_pages-total_pages : (xs : List A) → first_pages (total_pages xs) xs ≡ xs
  unfolding total_pages
  first_pages-total_pages xs = first_pages-take (total_pages xs) xs ∙ take-all _ xs (ground arith)

  -- A page holds at most ten materials; a page from 1 to the last holds none only if there are no
  -- materials at all.
  pub paginated_bounds :
      (page : ℕ) (xs : List A)
      → 1 ≤ page
      → page ≤ total_pages xs
      → (length (paginated page xs) ≤ page_size) × (length (paginated page xs) ≡ 0 → length xs ≡ 0)
  unfolding total_pages paginated
  paginated_bounds page xs h k = simp (length-take, length-drop) (omega arith)
