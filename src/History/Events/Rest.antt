-- ===== src/History/Events/Rest.antt =====
-- web/src/pages/history/HistoryPage.tsx when no handler waits.
use home_stock.Common.{ℕ, ◌≡◌, refl, inl, inr, ◌⊎◌, false, [], Bool-cases}
use home_stock.Js.Host.{Host}
use home_stock.Js.Outcome.{Outcome, ok, err, message_or}
use home_stock.Api.{StockMovementListResponse, AuditLogListResponse}
use home_stock.Async.{◌>>=◌, catch, finally, call_both, resolve, update, to_task, call}
use home_stock.Async.Pool.{Config, Reach}
use home_stock.Async.Pool.Drain.{Replies}
use home_stock.Async.Pool.Rest.{Brings, Restores, done-Restores}
use home_stock.Async.Pool.Rest.Reached.{Reach-rest, Rests}
use home_stock.Async.Pool.Schedule.{Chooses, after, after-drained, after-Reach}
use home_stock.History.{Filters, HistoryPage, load_data}
use home_stock.History.Events.{
  mounted, refresh_clicked, movement_type_chosen, audit_action_chosen, audit_channel_chosen,
  start_date_typed, end_date_typed, initial, same_filters, refilter, react, history_page,
}

abbrev pub NotLoading : HistoryPage → Type 0
NotLoading s = s.loading ≡ false

module _ (host : Host) where
  concluding-Brings :
      (o : Outcome (StockMovementListResponse × AuditLogListResponse)) (s : HistoryPage)
      → Brings NotLoading
          (to_task (
            finally
              (catch
                (resolve o >>= λ x.
                  update λ t. record t { movements = x.0.movements; audit_logs = x.1.logs })
                (λ e.
                  update λ t. record t { error = message_or (host.translate "loadingFailed") e }))
              (λ t. record t { loading = false })))
          s
  unfolding Brings to_task ◌>>=◌ catch finally resolve update
  concluding-Brings (ok x) s = refl
  concluding-Brings (err e) s = refl

  load_data-Brings :
      (f : Filters) (s : HistoryPage) → Brings NotLoading (to_task (load_data host f)) s
  unfolding Brings load_data to_task ◌>>=◌ catch finally call_both call resolve update
  load_data-Brings f s = λ r u. concluding-Brings r u

  refilter-Rests :
      (f g : Filters) (s : HistoryPage)
      → ((NotLoading s → NotLoading ((refilter host f g).change s))
          × Restores NotLoading (refilter host f g).task)
        ⊎ Brings NotLoading (refilter host f g).task ((refilter host f g).change s)
  unfolding refilter
  refilter-Rests f g s = elim (Bool-cases (same_filters f g)) [
    | inl same ↦ rw same (inl (λ h. h, done-Restores NotLoading))
    | inr changed ↦ rw changed (inr (load_data-Brings g _))
  ]

  react-Rests : Rests NotLoading (history_page host)
  unfolding react
  react-Rests s mounted offered = inr (load_data-Brings s.filters s)
  react-Rests s refresh_clicked offered = inr (load_data-Brings s.filters s)
  react-Rests s (movement_type_chosen v) offered = refilter-Rests s.filters _ s
  react-Rests s (audit_action_chosen v) offered = refilter-Rests s.filters _ s
  react-Rests s (audit_channel_chosen v) offered = refilter-Rests s.filters _ s
  react-Rests s (start_date_typed v) offered = refilter-Rests s.filters _ s
  react-Rests s (end_date_typed v) offered = refilter-Rests s.filters _ s
  react-Rests s _ offered = inl (λ h. h, done-Restores NotLoading)

-- Whatever the user has done on the page and whatever replies have come in whatever order: when a
-- scheduler lets waiting handlers go on as long as there is one, with whatever replies, then after
-- finitely many replies no handler waits, and the page is not loading.
pub Reach-NotLoading :
    (host : Host) (c : Config HistoryPage) (choose : Config HistoryPage → ℕ)
    (replies : Config HistoryPage → Replies)
    → Reach (history_page host) (record { state = initial; waiting = [] }) c
    → Chooses choose replies
    → (n : ℕ) × ((after choose replies n c).waiting ≡ [])
      × ((after choose replies n c).state.loading ≡ false)
Reach-NotLoading host c choose replies r chooses =
    let (n, e) = after-drained choose replies chooses c in
    let rests =
      Reach-rest NotLoading (history_page host) (react-Rests host) initial
        (after choose replies n c) refl (after-Reach choose replies (history_page host) n r) in
    (n, e, rests e)
