-- ===== src/Dashboard/Order.antt =====
-- The order of the categories.
use home_stock.Common.{
  ◌≡◌, refl, true, false, List, arith, map, IsOrdered, sort_by-IsOrdered, sort_by-Perm,
}
use mathlib.Core.List.{Perm}
use home_stock.Js.Number.{Number, nan, infinity, neg_infinity, fin, lt_number}
use home_stock.Dashboard.{CategoryStat, CategoryStats, more, by_category}

-- Each statistic is followed by one of no greater quantity.
abbrev pub IsDescending : List CategoryStat → Type 0
IsDescending = IsOrdered more

lt_number-asym : (a b : Number) → lt_number a b ≡ true → lt_number b a ≡ false
lt_number-asym (fin a) (fin b) h = ground arith
lt_number-asym (fin a) infinity h = refl
lt_number-asym neg_infinity (fin b) h = refl
lt_number-asym neg_infinity infinity h = refl
lt_number-asym (fin a) nan h = cc
lt_number-asym (fin a) neg_infinity h = cc
lt_number-asym neg_infinity nan h = cc
lt_number-asym neg_infinity neg_infinity h = cc
lt_number-asym nan b h = cc
lt_number-asym infinity b h = cc

-- The categories shown are those of the map, and each is followed by one of no greater quantity.
pub by_category-IsDescending :
    (stats : CategoryStats)
    → IsDescending (by_category stats) × Perm (by_category stats) (map (λ (k, s). s) stats)
unfolding by_category
by_category-IsDescending stats = (
  sort_by-IsOrdered more (λ x y less. lt_number-asym y.quantity x.quantity less) _,
  sort_by-Perm more (map (λ (k, s). s) stats),
)
