-- ===== src/Home/Charts.antt =====
-- What the two charts of the home page draw.
use mathlib.Core.List.{Perm, reverse, reverse_aux, reverse_perm, zip, zip_with}
use mathlib.Core.List.Perm
use home_stock.Common.{
  ℕ, ◌+◌, ◌≡◌, refl, ap, subst, Option, none, some, false, List, [], ◌∷◌, map, ℤ, arith, length,
}
use home_stock.Js.Text.{Text}
use home_stock.Js.Number.{Number, lt_number}
use home_stock.Js.Host.{Host}
use home_stock.Types.{MaterialSummary, StockMovement}
use home_stock.Types.Status.{normal, expiring, expired}
use home_stock.Dashboard.{
  CategoryStat, CategoryStats, by_category, tally, empty_tally, stats_of, DashboardStats,
}
use home_stock.Dashboard.Counts.{count_if, has_status, stats_of-counts}
use home_stock.Dashboard.Order.{IsDescending, by_category-IsDescending}
use home_stock.Home.{ChartColors, BarOption, PieOption, Slice, bar_option, pie_option}

-- The bars, from the lowest to the topmost: the i-th name stands at the i-th quantity.
abbrev pub bars : Option BarOption → List (Text × Number)
bars none = []
bars (some o) = zip o.names o.quantities

abbrev pub slices : Option PieOption → List Slice
slices none = []
slices (some o) = o.slices

-- Each bar is followed by one that is not shorter.
abbrev pub IsAscending : List (Text × Number) → Type 0
IsAscending [] = Unit {0}
IsAscending (x ∷ []) = Unit {0}
IsAscending (x ∷ y ∷ ys) = (lt_number y.1 x.1 ≡ false) × IsAscending (y ∷ ys)

abbrev pub bar_of : CategoryStat → Text × Number
bar_of c = (c.name, c.quantity)

zip-map :
    (cs : List CategoryStat) → zip (map (λ c. c.name) cs) (map (λ c. c.quantity) cs) ≡ map bar_of cs
unfolding zip zip_with
zip-map [] = refl
zip-map (c ∷ cs) = ap (λ bs. bar_of c ∷ bs) (zip-map cs)

reverse_aux-IsAscending :
    (x : CategoryStat) (xs acc : List CategoryStat)
    → IsDescending (x ∷ xs)
    → IsAscending (map bar_of (x ∷ acc))
    → IsAscending (map bar_of (reverse_aux xs (x ∷ acc)))
reverse_aux-IsAscending x [] acc down up = up
reverse_aux-IsAscending x (y ∷ ys) acc down up =
    reverse_aux-IsAscending y ys (x ∷ acc) down.1 (down.0, up)

reverse-IsAscending :
    (xs : List CategoryStat) → IsDescending xs → IsAscending (map bar_of (reverse xs))
reverse-IsAscending [] down = tt
reverse-IsAscending (x ∷ xs) down = reverse_aux-IsAscending x xs [] down tt

map-bar_of :
    (stats : CategoryStats) → map bar_of (map (λ (k, c). c) stats) ≡ map (λ (k, c). bar_of c) stats
map-bar_of [] = refl
map-bar_of ((k, c) ∷ rest) = ap (λ bs. bar_of c ∷ bs) (map-bar_of rest)

bars-bar_option :
    (host : Host) (colors : ChartColors) (s : DashboardStats)
    → bars (bar_option host colors (some s)) ≡ map bar_of (reverse s.by_category)
unfolding bar_option
bars-bar_option host colors s = zip-map (reverse s.by_category)

abbrev pub sum : List ℕ → ℕ
sum [] = 0
sum (n ∷ ns) = n + sum ns

module _ (host : Host) (colors : ChartColors) (remind : ℕ) (now : ℤ) where
  -- The bar chart of the statistics has one bar for each category of the tally of the materials,
  -- with that category's name at its quantity, and from below to above no bar is followed by one
  -- that is shorter.
  pub bar_option-IsAscending :
      (ms : List MaterialSummary) (vs : List StockMovement)
      → IsAscending (bars (bar_option host colors (some (stats_of host remind now ms vs))))
        × Perm
            (bars (bar_option host colors (some (stats_of host remind now ms vs))))
            (map (λ (k, c). bar_of c) (tally host remind now ms empty_tally).cat_stats)
  unfolding stats_of
  bar_option-IsAscending ms vs =
      let stats = (tally host remind now ms empty_tally).cat_stats in
      let (down, same) = by_category-IsDescending stats in
      let e = bars-bar_option host colors (stats_of host remind now ms vs) in
      rw (e) (
        reverse-IsAscending (by_category stats) down,
        subst (Perm _) (map-bar_of stats)
            (Perm.map bar_of (Perm.trans (reverse_perm (by_category stats)) same)),
      )

  -- The slices of the pie chart of the statistics are the numbers of materials that are neither
  -- expired nor about to, that are about to expire, and that are expired; together they are all.
  pub pie_option-slices :
      (ms : List MaterialSummary) (vs : List StockMovement)
      → let drawn = slices (pie_option host colors (some (stats_of host remind now ms vs))) in
        (map (λ slice. slice.value) drawn
          ≡ count_if (has_status host remind now normal) ms
            ∷ count_if (has_status host remind now expiring) ms
            ∷ count_if (has_status host remind now expired) ms
            ∷ [])
        × (sum (map (λ slice. slice.value) drawn) ≡ length ms)
  unfolding pie_option stats_of
  pie_option-slices ms vs =
      let (e, x, n, all) = stats_of-counts host remind now ms vs in
      (rw (e, x, n) refl, omega (arith, all))
