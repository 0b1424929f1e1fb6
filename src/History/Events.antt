-- ===== src/History/Events.antt =====
-- What the rendered history page offers to its user, and what each event does.
pub mod Rest
pub mod Calls
use mathlib.Core.List.{Memᴰ}
use home_stock.Common.{
  ◌≡◌, ◌≢◌, Option, none, some, Bool, true, false, ◌&&◌, List, [], ◌∷◌, map, if◌then◌else◌,
}
use home_stock.Js.Text.{Text, lit, eq_text}
use home_stock.Js.Host.{Host}
use home_stock.Types.{AuditLog}
use home_stock.Async.{Task, Async, to_task}
use home_stock.Async.Pool.{Reaction, Component}
use home_stock.History.{Filters, HistoryPage, load_data, filtered_audit_logs}
use home_stock.History.View.{movement_type_options, audit_action_options, audit_channel_options}

pub data Event : Type 0 where
  mounted refresh_clicked : Event
  search_typed search_settled : Text → Event
  movement_type_chosen audit_action_chosen audit_channel_chosen : Text → Event
  start_date_typed end_date_typed : Text → Event
  details_clicked : AuditLog → Event
  details_closed : Event

-- The state when the page is first rendered.
abbrev pub initial : HistoryPage
initial = record {
  movements = [];
  audit_logs = [];
  loading = false;
  error = [];
  filters = record {
    movement_type = lit "__all__";
    audit_action = lit "__all__";
    audit_channel = lit "__all__";
    start_date = [];
    end_date = [];
  };
  search = [];
  debounced_search = [];
  selected_audit_log = none;
}

abbrev now : (HistoryPage → HistoryPage) → Reaction HistoryPage
now f = record { change = f; task = Task.done }

abbrev later : Async HistoryPage (Unit {0}) → Reaction HistoryPage
later m = record { change = λ s. s; task = to_task m }

unfoldable pub same_filters : Filters → Filters → Bool
same_filters f g =
    eq_text f.movement_type g.movement_type
    && eq_text f.audit_action g.audit_action
    && eq_text f.audit_channel g.audit_channel
    && eq_text f.start_date g.start_date
    && eq_text f.end_date g.end_date

-- A change of what `loadData` captures makes its effect run: it loads with the new filters.
unfoldable pub refilter : Host → Filters → Filters → Reaction HistoryPage
refilter host f g =
    if same_filters f g
    then now (λ s. s)
    else record { change = λ s. record s { filters = g }; task = to_task (load_data host g) }

unfoldable pub react : Host → HistoryPage → Event → Reaction HistoryPage
react host s mounted = later (load_data host s.filters)
react host s refresh_clicked = later (load_data host s.filters)
react host s (search_typed v) = now (λ t. record t { search = v })
react host s (search_settled v) = now (λ t. record t { debounced_search = v })
react host s (movement_type_chosen v) =
    refilter host s.filters (record (s.filters) { movement_type = v })
react host s (audit_action_chosen v) =
    refilter host s.filters (record (s.filters) { audit_action = v })
react host s (audit_channel_chosen v) =
    refilter host s.filters (record (s.filters) { audit_channel = v })
react host s (start_date_typed v) = refilter host s.filters (record (s.filters) { start_date = v })
react host s (end_date_typed v) = refilter host s.filters (record (s.filters) { end_date = v })
react host s (details_clicked log) = now (λ t. record t { selected_audit_log = some log })
react host s details_closed = now (λ t. record t { selected_audit_log = none })

abbrev pub values : List (Text × Text) → List Text
values options = map (λ (value, label). value) options

-- The button that refreshes is disabled while the page loads; the selects offer their options, and
-- each row of the log has a button for its details.
abbrev pub Offered : Host → HistoryPage → Event → Type 0
Offered host s refresh_clicked = s.loading ≡ false
Offered host s (movement_type_chosen v) = Memᴰ v (values (movement_type_options host))
Offered host s (audit_action_chosen v) = Memᴰ v (values (audit_action_options host))
Offered host s (audit_channel_chosen v) = Memᴰ v (values (audit_channel_options host))
Offered host s (details_clicked log) =
    Memᴰ log (filtered_audit_logs host s.debounced_search s.audit_logs)
Offered host s details_closed = s.selected_audit_log ≢ none
Offered host s _ = Unit {0}

abbrev pub history_page : Host → Component HistoryPage Event
history_page host = record { Offered = Offered host; react = react host }
