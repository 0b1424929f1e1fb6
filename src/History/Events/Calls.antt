-- ===== src/History/Events/Calls.antt =====
-- What the history page asks the server for.
use mathlib.Core.List.{Memᴰ}
use mathlib.Core.List.Memᴰ
use home_stock.Common.{◌≡◌, refl, inl, inr, Option, none, some, true, List, [], ◌∷◌, Bool-cases}
use home_stock.Js.Text.{Text, lit, eq_text, IsGiven, or_none-IsGiven, eq_text_iff}
use home_stock.Js.Number.{whole}
use home_stock.Js.Host.{Host}
use home_stock.Api.{Call, promise_all, list_movements, list_audit_logs}
use home_stock.Async.{to_task}
use home_stock.Async.Rules.{TaskCalls}
use home_stock.Async.Rules.Calls.{call_rules, to_task-Calls, done-TaskCalls}
use home_stock.Async.Pool.{Config, Reach}
use home_stock.Async.Pool.Keeps.{TaskKeeps, keep_rules, Reach-IsKept, done-TaskKeeps}
use home_stock.Async.Pool.Calls.{WaitingCalls, Reach-WaitingCalls_kept}
use home_stock.History.{Filters, HistoryPage, unless_all, movement_query, audit_query, load_data}
use home_stock.History.View.{movement_type_options, audit_action_options, audit_channel_options}
use home_stock.History.Events.{
  Event, mounted, refresh_clicked, movement_type_chosen, audit_action_chosen, audit_channel_chosen,
  start_date_typed, end_date_typed, initial, same_filters, refilter, react, Offered, history_page,
}

-- A filter that is left out, or is one of these.
abbrev pub IsOneOf : List Text → Option Text → Type 0
IsOneOf vs none = Unit {0}
IsOneOf vs (some v) = Memᴰ v vs

abbrev pub movement_types : List Text
movement_types = lit "inbound" ∷ lit "consume" ∷ lit "adjustment" ∷ []

abbrev pub audit_actions : List Text
audit_actions = lit "create" ∷ lit "update" ∷ lit "delete" ∷ []

abbrev pub channels : List Text
channels = lit "web" ∷ lit "feishu" ∷ []

-- The page asks for movements and for the first hundred log entries, with filters that its selects
-- offer and dates that are not blank, and for nothing else.
abbrev pub IsFiltered : Call → Type 0
IsFiltered (list_movements q) =
    (q.material_id ≡ none)
    × (q.lot_id ≡ none)
    × IsOneOf movement_types q.movement_type
    × IsGiven q.start_date
    × IsGiven q.end_date
IsFiltered (list_audit_logs q) =
    IsOneOf audit_actions q.action
    × IsOneOf channels q.channel
    × (q.user_name ≡ none)
    × IsGiven q.start_date
    × IsGiven q.end_date
    × (q.page ≡ some (whole 1))
    × (q.page_size ≡ some (whole 100))
IsFiltered (promise_all a b) = IsFiltered a × IsFiltered b
IsFiltered _ = ⊥

unless_all-IsOneOf :
    (vs : List Text) (v : Text) → Memᴰ v (lit "__all__" ∷ vs) → IsOneOf vs (unless_all v)
unless_all-IsOneOf vs v m = elim (Memᴰ.cases_cons m) [
  | inl e ↦
      let same : eq_text v (lit "__all__") ≡ true = (eq_text_iff v (lit "__all__")).1 e in
      rw same tt
  | inr listed ↦ elim (Bool-cases (eq_text v (lit "__all__"))) [
    | inl same ↦ rw same tt
    | inr other ↦ rw other listed
  ]
]

-- The selects' values are among their options.
abbrev pub IsChosen : Filters → Type 0
IsChosen f =
    Memᴰ f.movement_type (lit "__all__" ∷ movement_types)
    × Memᴰ f.audit_action (lit "__all__" ∷ audit_actions)
    × Memᴰ f.audit_channel (lit "__all__" ∷ channels)

movement_query-IsFiltered :
    (f : Filters) → IsChosen f → IsFiltered (list_movements (movement_query f))
unfolding movement_query
movement_query-IsFiltered f (m, a, c) = (
  refl,
  refl,
  unless_all-IsOneOf movement_types f.movement_type m,
  or_none-IsGiven f.start_date,
  or_none-IsGiven f.end_date,
)

audit_query-IsFiltered : (f : Filters) → IsChosen f → IsFiltered (list_audit_logs (audit_query f))
unfolding audit_query
audit_query-IsFiltered f (m, a, c) = (
  unless_all-IsOneOf audit_actions f.audit_action a,
  unless_all-IsOneOf channels f.audit_channel c,
  refl,
  or_none-IsGiven f.start_date,
  or_none-IsGiven f.end_date,
  refl,
  refl,
)

module _ (host : Host) where
  load_data-IsFiltered-Calls :
      (f : Filters) → IsChosen f → TaskCalls IsFiltered (to_task (load_data host f))
  unfolding load_data
  load_data-IsFiltered-Calls f chosen =
      let movements = movement_query-IsFiltered f chosen in
      let logs = audit_query-IsFiltered f chosen in
      to_task-Calls IsFiltered _ (search (movements, logs, call_rules) depth 16)

  abbrev HasChosen : HistoryPage → Type 0
  HasChosen s = IsChosen s.filters

  load_data-Keeps : (f : Filters) → TaskKeeps HasChosen (to_task (load_data host f))
  unfolding load_data
  load_data-Keeps f = search keep_rules depth 16

  refilter-IsFiltered-Calls :
      (f g : Filters) → IsChosen g → TaskCalls IsFiltered (refilter host f g).task
  unfolding refilter
  refilter-IsFiltered-Calls f g chosen = elim (Bool-cases (same_filters f g)) [
    | inl same ↦ rw same (done-TaskCalls HistoryPage IsFiltered)
    | inr changed ↦ rw changed (load_data-IsFiltered-Calls g chosen)
  ]

  refilter-Keeps :
      (f g : Filters) (s : HistoryPage)
      → IsChosen g
      → IsChosen s.filters
      → IsChosen ((refilter host f g).change s).filters
        × TaskKeeps HasChosen (refilter host f g).task
  unfolding refilter
  refilter-Keeps f g s chosen before = elim (Bool-cases (same_filters f g)) [
    | inl same ↦ rw same (before, done-TaskKeeps HasChosen)
    | inr changed ↦ rw changed (chosen, load_data-Keeps g)
  ]

  react-Calls :
      (s : HistoryPage)
      → IsChosen s.filters
      → (e : Event) → Offered host s e
      → TaskCalls IsFiltered (react host s e).task
  unfolding react movement_type_options audit_action_options audit_channel_options
  react-Calls s chosen mounted offered = load_data-IsFiltered-Calls s.filters chosen
  react-Calls s chosen refresh_clicked offered = load_data-IsFiltered-Calls s.filters chosen
  react-Calls s chosen (movement_type_chosen v) offered =
      refilter-IsFiltered-Calls s.filters _ (offered, chosen.1, chosen.2)
  react-Calls s chosen (audit_action_chosen v) offered =
      refilter-IsFiltered-Calls s.filters _ (chosen.0, offered, chosen.2)
  react-Calls s chosen (audit_channel_chosen v) offered =
      refilter-IsFiltered-Calls s.filters _ (chosen.0, chosen.1, offered)
  react-Calls s chosen (start_date_typed v) offered = refilter-IsFiltered-Calls s.filters _ chosen
  react-Calls s chosen (end_date_typed v) offered = refilter-IsFiltered-Calls s.filters _ chosen
  react-Calls s chosen _ offered = done-TaskCalls HistoryPage IsFiltered

  react-Keeps :
      (s : HistoryPage) (e : Event)
      → Offered host s e
      → IsChosen s.filters
      → IsChosen ((react host s e).change s).filters × TaskKeeps HasChosen (react host s e).task
  unfolding react movement_type_options audit_action_options audit_channel_options
  react-Keeps s mounted offered chosen = (chosen, load_data-Keeps s.filters)
  react-Keeps s refresh_clicked offered chosen = (chosen, load_data-Keeps s.filters)
  react-Keeps s (movement_type_chosen v) offered chosen =
      refilter-Keeps s.filters _ s (offered, chosen.1, chosen.2) chosen
  react-Keeps s (audit_action_chosen v) offered chosen =
      refilter-Keeps s.filters _ s (chosen.0, offered, chosen.2) chosen
  react-Keeps s (audit_channel_chosen v) offered chosen =
      refilter-Keeps s.filters _ s (chosen.0, chosen.1, offered) chosen
  react-Keeps s (start_date_typed v) offered chosen = refilter-Keeps s.filters _ s chosen chosen
  react-Keeps s (end_date_typed v) offered chosen = refilter-Keeps s.filters _ s chosen chosen
  react-Keeps s _ offered chosen = (chosen, done-TaskKeeps HasChosen)

-- Whatever the user does on the page and in whatever order the replies come, its handlers ask for
-- nothing but movements and the first hundred log entries, with dates that are not blank and, if at
-- all, a movement's type out of three, an action out of three and a channel out of two.
pub Reach-IsFiltered :
    (host : Host) (c : Config HistoryPage)
    → Reach (history_page host) (record { state = initial; waiting = [] }) c
    → WaitingCalls IsFiltered c
Reach-IsFiltered host c r =
    Reach-WaitingCalls_kept IsFiltered (history_page host) (λ s. IsChosen s.filters)
      (react-Calls host) {c = record { state = initial; waiting = [] }}
      (λ d reached.
        (Reach-IsKept (λ s. IsChosen s.filters) (history_page host) (react-Keeps host)
          {c = record { state = initial; waiting = [] }}
          (record { holds = (Memᴰ.head refl, Memᴰ.head refl, Memᴰ.head refl); tasks = tt })
          reached).holds)
      tt r
