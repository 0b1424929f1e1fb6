-- ===== src/Inventory/Page/View/Laws.antt =====
-- The links below the table.
use home_stock.Common.{
  ℕ, zero, suc, ◌+◌, ◌≤◌, ◌<◌, ◌≡◌, refl, ap, ◌∙◌, inl, inr, Bool, true, false, List, [], ◌∷◌, map,
  filter, length, arith, ◌==◌, ==_iff, Bool-cases,
}
use home_stock.Js.Text.{Text}
use home_stock.Js.Host.{Host}
use home_stock.Async.Pool.{Config, Reach}
use home_stock.Inventory.Page.{InventoryPage, total_pages}
use home_stock.Inventory.Page.Initial.{initial_page}
use home_stock.Inventory.Page.Events.{inventory_page}
use home_stock.Inventory.Page.Events.Consistent.{IsConsistent, one-le-total_pages}
use home_stock.Inventory.Page.Events.Invariant.{Reach-IsConsistent}
use home_stock.Inventory.Page.View.{numbers, page_links}

-- The links with the mark of the page that is shown.
abbrev pub marked : List (ℕ × Bool) → List (ℕ × Bool)
marked links = filter (λ (num, active). active) links

module _ (page : ℕ) where
  abbrev link : ℕ → ℕ × Bool
  link num = (num, num == page)

  marked-before : (from n : ℕ) → page ≤ from → marked (map link (numbers from n)) ≡ []
  unfolding numbers
  marked-before from zero h = refl
  marked-before from (suc n) h =
      let other : (from + 1 == page) ≡ false = ground arith in
      rw other (marked-before (from + 1) n (omega arith))

  marked-numbers :
      (from n : ℕ)
      → from < page
      → page ≤ from + n
      → marked (map link (numbers from n)) ≡ (page, true) ∷ []
  unfolding numbers
  marked-numbers from zero h k = absurd (omega arith)
  marked-numbers from (suc n) h k = elim (Bool-cases (from + 1 == page)) [
    | inl here ↦
        let e : from + 1 ≡ page = (==_iff (from + 1) page).0 here in
        rw here (
          ap (λ num. (num, true) ∷ marked (map link (numbers (from + 1) n))) e
          ∙ ap (λ links. (page, true) ∷ links) (marked-before (from + 1) n (omega arith)))
    | inr later ↦ rw later (marked-numbers (from + 1) n (ground arith) (omega arith))
  ]

  length-numbers : (from n : ℕ) → length (map link (numbers from n)) ≡ n
  unfolding numbers
  length-numbers from zero = refl
  length-numbers from (suc n) = omega (arith, length-numbers (from + 1) n)

initial_page-IsConsistent : (host : Host) (search : Text) → IsConsistent (initial_page host search)
unfolding initial_page
initial_page-IsConsistent host search = (inr (refl, refl), omega arith, one-le-total_pages [], refl)

-- Whatever the user has done on the page and whatever replies have come in whatever order, there
-- is a link for each page of the table, and just one of them is marked, that of the page shown.
pub page_links-marked :
    (host : Host) (search : Text) (c : Config InventoryPage)
    → Reach (inventory_page host) (record { state = initial_page host search; waiting = [] }) c
    → let links = (page_links (total_pages c.state.materials) c.state.page).links in
      (length links ≡ total_pages c.state.materials) × (marked links ≡ (c.state.page, true) ∷ [])
unfolding page_links
page_links-marked host search c r =
    let (selected, low, high, closed) =
      Reach-IsConsistent host (initial_page host search) c (initial_page-IsConsistent host search)
        r in
    (
      length-numbers c.state.page 0 (total_pages c.state.materials),
      marked-numbers c.state.page 0 (total_pages c.state.materials) (omega arith) (omega arith),
    )
