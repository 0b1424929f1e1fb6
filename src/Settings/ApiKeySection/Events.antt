-- ===== src/Settings/ApiKeySection/Events.antt =====
-- What the rendered section offers to its user, what each event does, and what it asks of the
-- server.
use mathlib.Core.List.{Memᴰ}
use home_stock.Common.{◌≡◌, Bool, true, false, [], Bool-cases, inl, inr}
use home_stock.Js.Text.{Text, truthy, trim}
use home_stock.Js.Text.Trim.{IsTrimmed, trim-IsTrimmed}
use home_stock.Api.{Call, add_api_key}
use home_stock.Async.{Task, Async, to_task}
use home_stock.Async.Rules.{Calls, TaskCalls}
use home_stock.Async.Rules.Calls.{call_rules, to_task-Calls, done-TaskCalls}
use home_stock.Async.Pool.{Reaction, Component, Config, Reach}
use home_stock.Async.Pool.Calls.{WaitingCalls, Reach-WaitingCalls}
use home_stock.Settings.ApiKeySection.{ApiKeySection, fetch_keys, handle_add, handle_delete}

pub data Event : Type 0 where
  mounted show_add_clicked : Event
  new_key_typed : Text → Event
  save_clicked cancel_clicked : Event
  -- the user's answer to the question whether to delete the key
  delete_clicked : Bool → Text → Event

abbrev now : (ApiKeySection → ApiKeySection) → Reaction ApiKeySection
now f = record { change = f; task = Task.done }

abbrev later : Async ApiKeySection (Unit {0}) → Reaction ApiKeySection
later m = record { change = λ s. s; task = to_task m }

unfoldable pub react : ApiKeySection → Event → Reaction ApiKeySection
react s mounted = later fetch_keys
react s show_add_clicked = now (λ t. record t { show_add = true })
react s (new_key_typed v) = now (λ t. record t { new_key = v })
react s save_clicked = later (handle_add s.new_key)
react s cancel_clicked = now (λ t. record t { show_add = false; new_key = [] })
react s (delete_clicked confirmed key) = later (handle_delete confirmed key)

-- While the section loads, it shows nothing of this.
abbrev pub Offered : ApiKeySection → Event → Type 0
Offered s mounted = Unit {0}
Offered s show_add_clicked = s.loading ≡ false
Offered s (new_key_typed v) = (s.loading ≡ false) × (s.show_add ≡ true)
Offered s save_clicked =
    (s.loading ≡ false)
    × (s.show_add ≡ true)
    × (s.adding ≡ false)
    × (truthy (trim s.new_key) ≡ true)
Offered s cancel_clicked = (s.loading ≡ false) × (s.show_add ≡ true)
Offered s (delete_clicked confirmed key) = (s.loading ≡ false) × Memᴰ key s.keys

abbrev pub api_key_section : Component ApiKeySection Event
api_key_section = record { Offered = Offered; react = react }

-- A key that is added is not blank and has no white space at its ends.
abbrev pub IsKey : Call → Type 0
IsKey (add_api_key key) = (truthy key ≡ true) × IsTrimmed key
IsKey _ = Unit {0}

fetch_keys-Calls : Calls IsKey fetch_keys
unfolding fetch_keys
fetch_keys-Calls = search call_rules depth 14

handle_add-IsKey-Calls : (new_key : Text) → Calls IsKey (handle_add new_key)
unfolding handle_add
handle_add-IsKey-Calls new_key = elim (Bool-cases (truthy (trim new_key))) [
  | inl given ↦
      let valid : IsKey (add_api_key (trim new_key)) = (given, trim-IsTrimmed new_key) in
      rw given (search (fetch_keys-Calls, valid, call_rules) depth 16)
  | inr blank ↦ rw blank (search call_rules)
]

handle_delete-IsKey-Calls :
    (confirmed : Bool) (key : Text) → Calls IsKey (handle_delete confirmed key)
unfolding handle_delete
handle_delete-IsKey-Calls true key = search (fetch_keys-Calls, call_rules) depth 14
handle_delete-IsKey-Calls false key = search call_rules

react-Calls : (s : ApiKeySection) (e : Event) → Offered s e → TaskCalls IsKey (react s e).task
unfolding react
react-Calls s mounted offered = to_task-Calls IsKey _ fetch_keys-Calls
react-Calls s save_clicked offered = to_task-Calls IsKey _ (handle_add-IsKey-Calls s.new_key)
react-Calls s (delete_clicked confirmed key) offered =
    to_task-Calls IsKey _ (handle_delete-IsKey-Calls confirmed key)
react-Calls s _ offered = done-TaskCalls ApiKeySection IsKey

-- Whatever the user does in the section and in whatever order the replies come, every key that a
-- handler adds, now or after any further replies, is not blank and has no white space at its ends.
Reach-IsKey :
    (s : ApiKeySection) (c : Config ApiKeySection)
    → Reach api_key_section (record { state = s; waiting = [] }) c
    → WaitingCalls IsKey c
Reach-IsKey s c r =
    Reach-WaitingCalls IsKey api_key_section react-Calls {c = record { state = s; waiting = [] }} tt
      r
