-- ===== src/Home/Shown.antt =====
-- What the home page shows once the statistics are asked for.
use home_stock.Common.{
  ℕ, ◌≡◌, refl, Option, none, Bool, true, false, List, [], ◌∷◌, ◌++◌, ℤ, arith, ==_iff, ◌==◌,
  length,
}
use home_stock.Js.Text.{Text, lit, truthy}
use home_stock.Js.Number.{Number, zero_number, add_number, whole}
use home_stock.Js.Host.{Host}
use home_stock.Js.Outcome.{Outcome, ok, err, message_or}
use home_stock.Types.{MaterialSummary, StockMovement}
use home_stock.Types.Status.{expiring, expired}
use home_stock.Api.{
  Call, Reply, MaterialListResponse, CategoryListResponse, StockMovementListResponse,
}
use home_stock.Async.{to_task}
use home_stock.Async.Promise.{Arrival, settled}
use home_stock.Async.Pool.{Config, settle, answer}
use home_stock.Dashboard.{
  Dashboard, DashboardStats, stats_of, fetch_stats, tally, tally_material, Tally, empty_tally,
}
use home_stock.Dashboard.Counts.{count_if, has_status, stats_of-counts}
use home_stock.Dashboard.Cancelled.{
  IsOutcome, concluded, replied, replied-concluded, settle-fetch_stats,
}
use home_stock.Home.{
  ChartColors, View, loading_view, error_view, empty_view, content_view, Content, StatCard,
  CardVariant, Panel, no_data, panel, content, stat_cards, home_page,
}

-- The quantities of the materials, summed from left to right.
abbrev pub sum_quantities : Host → Number → List MaterialSummary → Number
sum_quantities host sum [] = sum
sum_quantities host sum (m ∷ ms) =
    sum_quantities host (add_number host.round sum m.total_quantity) ms

tally-sum_quantities :
    (host : Host) (remind : ℕ) (now : ℤ) (ms : List MaterialSummary) (t : Tally)
    → (tally host remind now ms t).total_quantity ≡ sum_quantities host t.total_quantity ms
unfolding tally tally_material
tally-sum_quantities host remind now [] t = refl
tally-sum_quantities host remind now (m ∷ ms) t =
    tally-sum_quantities host remind now ms (tally_material host remind now m t)

-- The run of the effect that belongs to the state, and its end.
abbrev pub started : Host → ℕ → ℤ → Dashboard → Config Dashboard
started host remind now d = settle (to_task (fetch_stats host remind now d.run)) d []

abbrev pub finished : Config Dashboard → ((c : Call) → Arrival (Reply c)) → Config Dashboard
finished c arrivals = answer c 0 (settled arrivals)

abbrev pub card : Text → Number → CardVariant → StatCard
card label value variant = record { label = label; value = value; variant = variant }

abbrev pub is_no_data : {A : Type 0} → Panel A → Bool
is_no_data (no_data t) = true
is_no_data (panel a) = false

abbrev pub is_nil : {A : Type 0} → List A → Bool
is_nil [] = true
is_nil (x ∷ xs) = false

module _ (host : Host) (colors : ChartColors) (remind : ℕ) (now : ℤ) where
  -- The four cards of these materials, from left to right, and which of the last two parts of the
  -- page say that there is no data.
  pub record IsContent (ms : List MaterialSummary) (vs : List StockMovement) (c : Content)
      : Type 0 where
    pub cards :
        c.cards
        ≡ card (host.translate "total_materials") (whole (length ms)) CardVariant.default
          ∷ card
              (host.translate "total_quantity")
              (sum_quantities host zero_number ms)
              CardVariant.default
          ∷ card
              (host.translate "expiring_soon")
              (whole (count_if (has_status host remind now expiring) ms))
              CardVariant.warning
          ∷ card
              (host.translate "expired")
              (whole (count_if (has_status host remind now expired) ms))
              CardVariant.error
          ∷ []
    pub no_pie : is_no_data c.pie ≡ is_nil ms
    pub no_recent : is_no_data c.recent ≡ is_nil vs

  -- The content for the replies' materials and movements; or the message of the error; behind an
  -- error without a text, nothing if there was nothing before.
  abbrev pub Shows :
      Option DashboardStats
      → Outcome (MaterialListResponse × (CategoryListResponse × StockMovementListResponse))
      → View
      → Type 0
  Shows before (ok (m, (c, v))) view =
      (shown : Content) × (view ≡ content_view shown) × IsContent m.materials v.movements shown
  Shows before (err e) view =
      (truthy (message_or (lit "Unknown error") e) ≡ true
        → view
          ≡ error_view (host.translate "error" ++ (lit ": " ++ message_or (lit "Unknown error") e)))
      × (truthy (message_or (lit "Unknown error") e) ≡ false → before ≡ none → view ≡ empty_view)

  content-IsContent :
      (ms : List MaterialSummary) (vs : List StockMovement)
      → IsContent ms vs (content host colors (stats_of host remind now ms vs))
  unfolding content stat_cards stats_of
  content-IsContent ms vs =
      let (e, x, n, all) = stats_of-counts host remind now ms vs in
      record {
        cards = rw (e, x, tally-sum_quantities host remind now ms empty_tally) refl;
        no_pie = pie_panel ms;
        no_recent = recent_panel vs;
      }
    where
      pie_panel :
          (ms : List MaterialSummary)
          → is_no_data (content host colors (stats_of host remind now ms vs)).pie ≡ is_nil ms
      pie_panel [] = refl
      pie_panel (m ∷ ms) = ground arith

      recent_panel :
          (vs : List StockMovement)
          → is_no_data (content host colors (stats_of host remind now ms vs)).recent ≡ is_nil vs
      recent_panel [] = refl
      recent_panel (v ∷ vs) = refl

  home_page-concluded :
      (s : Dashboard)
      (o : Outcome (MaterialListResponse × (CategoryListResponse × StockMovementListResponse)))
      → s.error ≡ none
      → Shows s.stats o (home_page host colors (concluded host remind now s.run o s))
  unfolding home_page
  home_page-concluded s (ok (m, (c, v))) e = (
    content host colors (stats_of host remind now m.materials v.movements),
    rw e refl,
    content-IsContent m.materials v.movements,
  )
  home_page-concluded s (err x) e =
      (λ given. rw given refl, λ blank before. rw (blank, before) refl)

  -- A run of the effect shows that the page loads. Where its three calls come to what they come to,
  -- in whatever order in time, it then shows: if all succeed, cards with the number of the
  -- materials, the sum of their quantities, the number of those that are about to expire and of
  -- those that are expired, in this order, and in the last two parts that there is no data exactly
  -- if there are no materials, or no movements; otherwise the message of the error of the call that
  -- failed first, or, behind an error without a text, nothing if there were no statistics before.
  pub home_page-shown :
      (d : Dashboard) (arrivals : (c : Call) → Arrival (Reply c))
      (o : Outcome (MaterialListResponse × (CategoryListResponse × StockMovementListResponse)))
      → IsOutcome arrivals o
      → (home_page host colors (started host remind now d).state
          ≡ loading_view (host.translate "loading"))
        × Shows d.stats o
            (home_page host colors (finished (started host remind now d) arrivals).state)
  unfolding replied home_page
  home_page-shown d arrivals o h =
      let s : Dashboard = record d { loading = true; error = none } in
      let start = settle-fetch_stats host remind now d.run d in
      let current : (d.run == d.run) ≡ true = (==_iff d.run d.run).1 refl in
      let end = replied-concluded host remind now d.run s arrivals o h in
      (rw start refl, rw (start, end, current) (home_page-concluded s o refl))
