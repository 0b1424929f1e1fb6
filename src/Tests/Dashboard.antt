-- ===== src/Tests/Dashboard.antt =====
-- The laws of the dashboard at the sample materials.
use mathlib.Core.List.{Perm}
use mathlib.Core.Quot
use home_stock.Common.{
  inl, inr, refl, arith, ◌≡◌, ◌+◌, none, some, length, true, List, [], ◌∷◌, map, pos, if◌then◌else◌,
  ◌==◌,
}
use home_stock.Js.Text.{lit}
use home_stock.Js.Outcome.{Outcome, err, error, other}
use home_stock.Types.{MaterialSummary, StockMovement}
use home_stock.Types.Status.{normal, expiring, expired}
use home_stock.Api.{
  Call, Reply, list_materials, list_categories, MaterialListResponse, CategoryListResponse,
  StockMovementListResponse,
}
use home_stock.Dashboard.{Dashboard, tally, empty_tally, stats_of}
use home_stock.Dashboard.Counts.{count_if, has_status, stats_of-counts}
use home_stock.Dashboard.Unordered.{counts_of, stock_counts, stats_of-Stock}
use home_stock.Dashboard.Cancelled.{IsOutcome, replied, concluded, replied-concluded}
use home_stock.Async.Promise.{Arrival}
use home_stock.Home.{ChartColors, bar_option, pie_option, loading_view, home_page}
use home_stock.Home.Charts.{
  bars, bar_of, slices, sum, IsAscending, bar_option-IsAscending, pie_option-slices,
}
use home_stock.Home.Shown.{started, finished, Shows, home_page-shown}
use home_stock.Tests.Fixtures.{host, summary}

materials : List MaterialSummary
materials = summary "m1" ∷ summary "m2" ∷ []

stats_of-counts_example :
    ((stats_of host 3 (pos 5) materials []).expiring_count
      ≡ count_if (has_status host 3 (pos 5) expiring) materials)
    × ((stats_of host 3 (pos 5) materials []).expired_count
        ≡ count_if (has_status host 3 (pos 5) expired) materials)
    × ((stats_of host 3 (pos 5) materials []).normal_count
        ≡ count_if (has_status host 3 (pos 5) normal) materials)
    × ((stats_of host 3 (pos 5) materials []).expiring_count
          + (stats_of host 3 (pos 5) materials []).expired_count
          + (stats_of host 3 (pos 5) materials []).normal_count
        ≡ (stats_of host 3 (pos 5) materials []).total_materials)
stats_of-counts_example = stats_of-counts host 3 (pos 5) materials []

stats_of-Stock_example :
    (counts_of host 3 (pos 5) materials [] ≡ stock_counts host 3 (pos 5) (Quot.mk materials))
    × ((others : List MaterialSummary) (ws : List StockMovement)
        → Perm materials others
        → counts_of host 3 (pos 5) others ws ≡ counts_of host 3 (pos 5) materials [])
stats_of-Stock_example = stats_of-Stock host 3 (pos 5) materials []

dashboard : Dashboard
dashboard = record { stats = none; loading = true; error = none; run = 2 }

-- All three calls fail, that of the categories first.
arrivals : (c : Call) → Arrival (Reply c)
arrivals (list_materials q) = record { outcome = err (error (lit "late")); at = 9 }
arrivals list_categories = record { outcome = err (error (lit "first")); at = 2 }
arrivals c = record { outcome = err (other []); at = 5 }

first_failure : Outcome (MaterialListResponse × (CategoryListResponse × StockMovementListResponse))
first_failure = err (error (lit "first"))

arrivals-IsOutcome : IsOutcome arrivals first_failure
unfolding arrivals first_failure
arrivals-IsOutcome = inr (inl (refl, λ f e. omega arith, λ f e. omega arith))

replied-concluded_example : replied host 3 (pos 5) 2 dashboard arrivals ≡ record {
  state =
      if dashboard.run == 2 then concluded host 3 (pos 5) 2 first_failure dashboard else dashboard;
  waiting = [];
}
replied-concluded_example =
    replied-concluded host 3 (pos 5) 2 dashboard arrivals first_failure arrivals-IsOutcome

abbrev colors : ChartColors
colors = record {
  primary = lit "#111";
  tertiary = lit "#222";
  error = lit "#333";
  on_surface = lit "#444";
  on_surface_variant = lit "#555";
  surface_container_high = lit "#666";
}

bar_option-IsAscending_example :
    IsAscending (bars (bar_option host colors (some (stats_of host 3 (pos 5) materials []))))
    × Perm
        (bars (bar_option host colors (some (stats_of host 3 (pos 5) materials []))))
        (map (λ (k, c). bar_of c) (tally host 3 (pos 5) materials empty_tally).cat_stats)
bar_option-IsAscending_example = bar_option-IsAscending host colors 3 (pos 5) materials []

pie_option-slices_example :
    let drawn = slices (pie_option host colors (some (stats_of host 3 (pos 5) materials []))) in
    (map (λ slice. slice.value) drawn
      ≡ count_if (has_status host 3 (pos 5) normal) materials
        ∷ count_if (has_status host 3 (pos 5) expiring) materials
        ∷ count_if (has_status host 3 (pos 5) expired) materials
        ∷ [])
    × (sum (map (λ slice. slice.value) drawn) ≡ length materials)
pie_option-slices_example = pie_option-slices host colors 3 (pos 5) materials []

home_page-shown_example :
    (home_page host colors (started host 3 (pos 5) dashboard).state ≡ loading_view (lit "loading"))
    × Shows host colors 3
        (pos 5)
        dashboard.stats
        first_failure
        (home_page host colors (finished (started host 3 (pos 5) dashboard) arrivals).state)
home_page-shown_example =
    home_page-shown host colors 3 (pos 5) dashboard arrivals first_failure arrivals-IsOutcome
