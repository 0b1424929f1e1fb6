-- ===== src/Dashboard/Cancelled.antt =====
-- A run of the effect whose place another has taken.
use home_stock.Common.{
  ℕ, ◌≡◌, refl, ap, ◌∙◌, none, some, true, false, [], ◌∷◌, ℤ, if◌then◌else◌, ◌==◌, Bool-cases, inl,
  inr,
}
use home_stock.Js.Text.{lit}
use home_stock.Js.Host.{Host}
use home_stock.Js.Outcome.{Outcome, ok, err, message_or}
use home_stock.Api.{
  Call, Reply, promise_all, list_materials, list_categories, list_movements, MaterialListResponse,
  CategoryListResponse, StockMovementListResponse,
}
use home_stock.Async.Promise.{Arrival, IsSettled, IsSettled-outcome, settled, arrive}
use home_stock.Async.{Task, call, ◌>>=◌, catch, finally, call_three, resolve, update, to_task}
use home_stock.Async.Pool.{Config, settle, answer}
use home_stock.Dashboard.{
  Dashboard, stats_of, fetch_stats, unless_cancelled, all_materials, all_movements,
}

abbrev pub dashboard_calls : Call
dashboard_calls =
    promise_all (list_materials all_materials)
      (promise_all list_categories (list_movements all_movements))

-- All three calls succeed with these values, or this is the error of the first in time that fails.
abbrev pub IsOutcome :
    ((c : Call) → Arrival (Reply c))
    → Outcome (MaterialListResponse × (CategoryListResponse × StockMovementListResponse))
    → Type 0
IsOutcome arrivals =
    IsSettled (arrivals (list_materials all_materials)) (arrivals list_categories)
      (arrivals (list_movements all_movements))

IsOutcome-settled :
    (arrivals : (c : Call) → Arrival (Reply c))
    (o : Outcome (MaterialListResponse × (CategoryListResponse × StockMovementListResponse)))
    → IsOutcome arrivals o
    → settled arrivals dashboard_calls ≡ o
unfolding arrive
IsOutcome-settled arrivals o h =
    IsSettled-outcome (arrivals (list_materials all_materials)) (arrivals list_categories)
      (arrivals (list_movements all_movements)) o h

module _ (host : Host) (remind : ℕ) (now : ℤ) (run : ℕ) where
  -- What a run does when its three calls are settled.
  guarded :
      Outcome (MaterialListResponse × (CategoryListResponse × StockMovementListResponse))
      → Task Dashboard
  guarded o = to_task (
      finally
        (catch
          (resolve o >>= λ x. update (
            unless_cancelled run λ s. record s {
              stats = some (stats_of host remind now x.0.materials x.1.1.movements);
            }))
          (λ e. update (
            unless_cancelled run
              λ s. record s { error = some (message_or (lit "Unknown error") e) })))
        (unless_cancelled run λ s. record s { loading = false }))

  pub waiting_run : Task Dashboard
  waiting_run = Task.await dashboard_calls guarded

  -- A run at once marks the page as loading, and waits.
  pub settle-fetch_stats :
      (s : Dashboard)
      → settle (to_task (fetch_stats host remind now run)) s []
        ≡ record { state = record s { loading = true; error = none }; waiting = waiting_run ∷ [] }
  unfolding fetch_stats settle to_task ◌>>=◌ catch finally call_three call resolve update
      waiting_run guarded
  settle-fetch_stats s = refl

  -- What a run that is not cancelled makes of the replies: the statistics, or the message of the
  -- first error.
  abbrev pub concluded :
      Outcome (MaterialListResponse × (CategoryListResponse × StockMovementListResponse))
      → Dashboard
      → Dashboard
  concluded (ok (m, (c, v))) s = record s {
    stats = some (stats_of host remind now m.materials v.movements);
    loading = false;
  }
  concluded (err e) s = record s {
    error = some (message_or (lit "Unknown error") e);
    loading = false;
  }

  -- The run waits, and its calls come to what they come to.
  unfoldable pub replied : Dashboard → ((c : Call) → Arrival (Reply c)) → Config Dashboard
  replied s arrivals =
      answer (record { state = s; waiting = waiting_run ∷ [] }) 0 (settled arrivals)

  replied-settle :
      (s : Dashboard) (arrivals : (c : Call) → Arrival (Reply c))
      → replied s arrivals ≡ settle (guarded (settled arrivals dashboard_calls)) s []
  unfolding replied waiting_run guarded answer settle
  replied-settle s arrivals = refl

  settle-guarded :
      (o : Outcome (MaterialListResponse × (CategoryListResponse × StockMovementListResponse)))
      (s : Dashboard)
      → settle (guarded o) s []
        ≡ record { state = unless_cancelled run (concluded o) s; waiting = [] }
  unfolding guarded settle to_task ◌>>=◌ catch finally resolve update
  settle-guarded (ok x) s = elim (Bool-cases (s.run == run)) [
    | inl current ↦ rw (current, current) refl
    | inr cancelled ↦ rw (cancelled, cancelled) refl
  ]
  settle-guarded (err e) s = elim (Bool-cases (s.run == run)) [
    | inl current ↦ rw (current, current) refl
    | inr cancelled ↦ rw (cancelled, cancelled) refl
  ]

  -- Where the three calls of a run that waits come to what they come to, in whatever order in time:
  -- when `Promise.all` has settled, a run whose place another has taken has changed nothing; the
  -- current run has set the statistics if all calls have succeeded, and otherwise the message of
  -- the error of the call that failed first in time; and the page is no longer loading.
  pub replied-concluded :
      (s : Dashboard) (arrivals : (c : Call) → Arrival (Reply c))
      (o : Outcome (MaterialListResponse × (CategoryListResponse × StockMovementListResponse)))
      → IsOutcome arrivals o
      → replied s arrivals
        ≡ record { state = if s.run == run then concluded o s else s; waiting = [] }
  replied-concluded s arrivals o h =
      replied-settle s arrivals
      ∙ ap (λ q. settle (guarded q) s []) (IsOutcome-settled arrivals o h)
      ∙ settle-guarded o s
