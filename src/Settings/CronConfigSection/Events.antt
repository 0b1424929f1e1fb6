-- ===== src/Settings/CronConfigSection/Events.antt =====
-- What the rendered section offers to its user, what each event does, and what it asks of the
-- server.
use home_stock.Common.{◌≡◌, refl, some, Bool, false, []}
use home_stock.Js.Text.{Text, IsGiven, or_none-IsGiven}
use home_stock.Js.Number.{or_number, whole}
use home_stock.Js.Host.{Host}
use home_stock.Api.{Call, update_cron_config}
use home_stock.Async.{Task, Async, to_task}
use home_stock.Async.Rules.{Calls, TaskCalls}
use home_stock.Async.Rules.Calls.{call_rules, to_task-Calls, done-TaskCalls}
use home_stock.Async.Pool.{Reaction, Component, Config, Reach}
use home_stock.Async.Pool.Calls.{WaitingCalls, Reach-WaitingCalls}
use home_stock.Settings.CronConfigSection.{
  Fields, CronConfigSection, fetch_config, payload, handle_save,
}

pub data Event : Type 0 where
  mounted : Event
  enabled_ticked notify_ticked : Bool → Event
  interval_typed poll_typed start_typed end_typed : Text → Event
  save_clicked : Event

abbrev now : (Fields → Fields) → Reaction CronConfigSection
now f = record { change = λ s. record s { fields = f s.fields }; task = Task.done }

abbrev later : Async CronConfigSection (Unit {0}) → Reaction CronConfigSection
later m = record { change = λ s. s; task = to_task m }

unfoldable pub react : Host → CronConfigSection → Event → Reaction CronConfigSection
react host s mounted = later (fetch_config host)
react host s (enabled_ticked b) = now (λ f. record f { enabled = b })
react host s (interval_typed v) =
    now (λ f. record f { interval_days = or_number (host.parse_int v) (whole 7) })
react host s (poll_typed v) = now (λ f. record f { poll_interval = v })
react host s (notify_ticked b) = now (λ f. record f { notify_enabled = b })
react host s (start_typed v) = now (λ f. record f { notify_time_start = v })
react host s (end_typed v) = now (λ f. record f { notify_time_end = v })
react host s save_clicked = later (handle_save host s.fields)

-- While the section loads, it shows nothing of this.
abbrev pub Offered : CronConfigSection → Event → Type 0
Offered s mounted = Unit {0}
Offered s save_clicked = (s.loading ≡ false) × (s.saving ≡ false)
Offered s _ = s.loading ≡ false

abbrev pub cron_section : Host → Component CronConfigSection Event
cron_section host = record { Offered = Offered; react = react host }

-- An update of the schedule has no blank text, and says whether the checks and the notices are
-- enabled.
abbrev pub IsSchedule : Call → Type 0
IsSchedule (update_cron_config p) =
    IsGiven p.expiry_check_poll_interval
    × IsGiven p.notify_time_start
    × IsGiven p.notify_time_end
    × ((b : Bool) × (p.enabled ≡ some b))
    × ((b : Bool) × (p.notify_enabled ≡ some b))
IsSchedule _ = Unit {0}

fetch_config-Calls : (host : Host) → Calls IsSchedule (fetch_config host)
unfolding fetch_config
fetch_config-Calls host = search call_rules depth 14

payload-IsSchedule : (f : Fields) → IsSchedule (update_cron_config (payload f))
unfolding payload
payload-IsSchedule f = (
  or_none-IsGiven f.poll_interval,
  or_none-IsGiven f.notify_time_start,
  or_none-IsGiven f.notify_time_end,
  (f.enabled, refl),
  (f.notify_enabled, refl),
)

handle_save-IsSchedule-Calls : (host : Host) (f : Fields) → Calls IsSchedule (handle_save host f)
unfolding handle_save
handle_save-IsSchedule-Calls host f =
    let valid = payload-IsSchedule f in search (valid, fetch_config-Calls, call_rules) depth 16

react-Calls :
    (host : Host) (s : CronConfigSection) (e : Event)
    → Offered s e
    → TaskCalls IsSchedule (react host s e).task
unfolding react
react-Calls host s mounted offered = to_task-Calls IsSchedule _ (fetch_config-Calls host)
react-Calls host s save_clicked offered =
    to_task-Calls IsSchedule _ (handle_save-IsSchedule-Calls host s.fields)
react-Calls host s _ offered = done-TaskCalls CronConfigSection IsSchedule

-- Whatever the user does in the section and in whatever order the replies come, every update of the
-- schedule that a handler asks for has no blank text, and says whether the checks and the notices
-- are enabled.
Reach-IsSchedule :
    (host : Host) (s : CronConfigSection) (c : Config CronConfigSection)
    → Reach (cron_section host) (record { state = s; waiting = [] }) c
    → WaitingCalls IsSchedule c
Reach-IsSchedule host s c r =
    Reach-WaitingCalls IsSchedule (cron_section host) (react-Calls host)
      {c = record { state = s; waiting = [] }} tt r
