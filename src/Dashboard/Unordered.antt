-- ===== src/Dashboard/Unordered.antt =====
-- The dashboard of web/src/hooks/useDashboardStats.ts against the stock as a list up to order.
use mathlib.Core.List.{Perm}
use mathlib.Core.List.{Permᴰ}
use mathlib.Core.Logic.{∥∥₁_elim}
use mathlib.Core.Quot
use mathlib.Core.Quot.{Quot}
use home_stock.Common.{
  ℕ, ◌+◌, ◌≡◌, refl, ap, ◌∙◌, sym, Bool, true, List, [], ◌∷◌, ℤ, length, arith, if◌then◌else◌,
  Bool-cases, inl, inr,
}
use home_stock.Js.Text.{Text}
use home_stock.Js.Host.{Host}
use home_stock.Types.{MaterialSummary, StockMovement}
use home_stock.Types.Status.{normal, expiring, expired}
use home_stock.Dashboard.{tally, empty_tally, stats_of}
use home_stock.Dashboard.Counts.{
  count_if, count_of, has_status, has_key, stats_of-counts, cat_stats-count_of,
}

count_if_step : {A : Type 0} → (A → Bool) → A → ℕ
count_if_step p x = if p x then 1 else 0

count_if-cons :
    {A : Type 0} (p : A → Bool) (x : A) (xs : List A)
    → count_if p (x ∷ xs) ≡ count_if_step p x + count_if p xs
unfolding count_if_step
count_if-cons p x xs = elim (Bool-cases (p x)) [
  | inl holds ↦ rw holds (omega arith)
  | inr fails ↦ rw fails (omega arith)
]

count_if-Permᴰ :
    {A : Type 0} (p : A → Bool) {xs ys : List A} → Permᴰ xs ys → count_if p xs ≡ count_if p ys
count_if-Permᴰ p Permᴰ.nil = refl
count_if-Permᴰ p (Permᴰ.cons {a} {b} {l₁} {l₂} e same) =
    let ih = count_if-Permᴰ p same in
    let e' = ap (count_if_step p) e in omega (arith, count_if-cons p a l₁, count_if-cons p b l₂)
count_if-Permᴰ p (Permᴰ.swap {a} {b} {a'} {b'} {l} e e') =
    let k = ap (count_if_step p) e in
    let k' = ap (count_if_step p) e' in
    omega (
      arith,
      count_if-cons p a (b ∷ l),
      count_if-cons p b l,
      count_if-cons p a' (b' ∷ l),
      count_if-cons p b' l,
    )
count_if-Permᴰ p (Permᴰ.trans same same') = count_if-Permᴰ p same ∙ count_if-Permᴰ p same'

pub count_if-Perm :
    {A : Type 0} (p : A → Bool) {xs ys : List A} → Perm xs ys → count_if p xs ≡ count_if p ys
count_if-Perm p same = ∥∥₁_elim same (hlevel) (count_if-Permᴰ p)

-- The stock: the materials, whatever the order in which the server lists them.
abbrev pub Stock : Type 0
Stock = Quot (Perm {A = MaterialSummary})

-- How many materials of the stock a test picks out.
unfoldable pub number_of : (MaterialSummary → Bool) → Stock → ℕ
number_of p = Quot.lift (hlevel) (count_if p) (λ xs ys same. count_if-Perm p same)

count_if-const : {A : Type 0} (xs : List A) → count_if (λ x. true) xs ≡ length xs
count_if-const [] = refl
count_if-const (x ∷ xs) = omega (arith, count_if-const xs)

-- What the dashboard counts: the materials of each status, all of them, and those of each category.
pub record Counts : Type 0 where
  pub expiring_count : ℕ
  pub expired_count : ℕ
  pub normal_count : ℕ
  pub total : ℕ
  pub of_category : Text → ℕ

module _ (host : Host) (remind : ℕ) (now : ℤ) where
  abbrev pub counts_of : List MaterialSummary → List StockMovement → Counts
  counts_of ms vs =
      let stats = stats_of host remind now ms vs in
      record {
        expiring_count = stats.expiring_count;
        expired_count = stats.expired_count;
        normal_count = stats.normal_count;
        total = stats.total_materials;
        of_category = λ key. count_of key (tally host remind now ms empty_tally).cat_stats;
      }

  abbrev pub stock_counts : Stock → Counts
  stock_counts stock = record {
    expiring_count = number_of (has_status host remind now expiring) stock;
    expired_count = number_of (has_status host remind now expired) stock;
    normal_count = number_of (has_status host remind now normal) stock;
    total = number_of (λ m. true) stock;
    of_category = λ key. number_of (has_key host remind now key) stock;
  }

  counts_of-stock_counts :
      (ms : List MaterialSummary) (vs : List StockMovement)
      → counts_of ms vs ≡ stock_counts (Quot.mk ms)
  unfolding number_of stats_of
  counts_of-stock_counts ms vs =
      let (e, x, n, all) = stats_of-counts host remind now ms vs in
      λ i. record {
        expiring_count = e i;
        expired_count = x i;
        normal_count = n i;
        total = sym (count_if-const ms) i;
        of_category = λ key. cat_stats-count_of host remind now key ms i;
      }

  -- What the dashboard counts is a function of the stock, the materials up to order: how many are
  -- about to expire, expired, or neither, how many there are, and how many each category has. So the
  -- same materials in another order, with whatever movements, give the same counts.
  pub stats_of-Stock :
      (ms : List MaterialSummary) (vs : List StockMovement)
      → (counts_of ms vs ≡ stock_counts (Quot.mk ms))
        × ((others : List MaterialSummary) (ws : List StockMovement)
            → Perm ms others
            → counts_of others ws ≡ counts_of ms vs)
  stats_of-Stock ms vs =
      let e = counts_of-stock_counts ms vs in
      (
        e,
        λ others ws same.
            counts_of-stock_counts others ws ∙ (ap stock_counts (sym (Quot.sound same)) ∙ sym e),
      )
