-- ===== src/Settings/OutboundSection/Events.antt =====
-- What the rendered section offers to its user, what each event does, and what it asks of the
-- server.
use mathlib.Core.List.{Memᴰ}
use home_stock.Common.{◌≡◌, Option, none, some, Bool, true, false, [], Bool-cases, inl, inr}
use home_stock.Js.Text.{Text, truthy, IsGiven}
use home_stock.Api.{Call, promise_all, EndpointConfig, create_endpoint, update_endpoint}
use home_stock.Async.{Task, Async, call, to_task}
use home_stock.Async.Rules.{Calls, TaskCalls}
use home_stock.Async.Rules.Calls.{call_rules, call-Calls, to_task-Calls, done-TaskCalls}
use home_stock.Async.Pool.{Reaction, Component, Config, Reach}
use home_stock.Async.Pool.Calls.{WaitingCalls, Reach-WaitingCalls}
use home_stock.Settings.OutboundSection.{
  is_editing, Fields, OutboundSection, blank_fields, fetch_endpoints, save, handle_save,
  handle_delete, handle_test,
}

pub data Event : Type 0 where
  mounted : Event
  add_clicked : Event
  -- the form
  name_typed url_typed : Text → Event
  enabled_ticked : Bool → Event
  save_clicked cancel_clicked : Event
  -- the row of an endpoint; the user's answer to the question whether to delete it
  edit_clicked test_clicked : EndpointConfig → Event
  delete_clicked : Bool → EndpointConfig → Event

abbrev now : (OutboundSection → OutboundSection) → Reaction OutboundSection
now f = record { change = f; task = Task.done }

abbrev later : Async OutboundSection (Unit {0}) → Reaction OutboundSection
later m = record { change = λ s. s; task = to_task m }

abbrev set_fields : (Fields → Fields) → OutboundSection → OutboundSection
set_fields f s = record s { fields = f s.fields }

abbrev fields_of : EndpointConfig → Fields
fields_of ep = record { editing = some ep.name; name = ep.name; url = ep.url; enabled = ep.enabled }

unfoldable pub react : OutboundSection → Event → Reaction OutboundSection
react s mounted = later fetch_endpoints
react s add_clicked = now (λ t. record t { show_form = true; fields = blank_fields })
react s (name_typed v) = now (set_fields λ f. record f { name = v })
react s (url_typed v) = now (set_fields λ f. record f { url = v })
react s (enabled_ticked b) = now (set_fields λ f. record f { enabled = b })
react s save_clicked = later (handle_save s.fields)
react s cancel_clicked =
    now (λ t. record t { show_form = false; fields = record (t.fields) { editing = none } })
react s (edit_clicked ep) = now (λ t. record t { fields = fields_of ep; show_form = true })
react s (test_clicked ep) = later (handle_test ep.url)
react s (delete_clicked confirmed ep) = later (handle_delete confirmed ep.name)

-- While the section loads, it shows nothing of this; the name of an endpoint that is edited has no
-- field.
abbrev pub Offered : OutboundSection → Event → Type 0
Offered s mounted = Unit {0}
Offered s add_clicked = s.loading ≡ false
Offered s (name_typed v) =
    (s.loading ≡ false) × (s.show_form ≡ true) × (is_editing s.fields.editing ≡ false)
Offered s (url_typed v) = (s.loading ≡ false) × (s.show_form ≡ true)
Offered s (enabled_ticked b) = (s.loading ≡ false) × (s.show_form ≡ true)
Offered s save_clicked =
    (s.loading ≡ false)
    × (s.show_form ≡ true)
    × (s.saving ≡ false)
    × (truthy s.fields.name ≡ true)
    × (truthy s.fields.url ≡ true)
Offered s cancel_clicked = (s.loading ≡ false) × (s.show_form ≡ true)
Offered s (edit_clicked ep) = (s.loading ≡ false) × Memᴰ ep s.endpoints
Offered s (test_clicked ep) = (s.loading ≡ false) × Memᴰ ep s.endpoints × (s.testing ≡ false)
Offered s (delete_clicked confirmed ep) = (s.loading ≡ false) × Memᴰ ep s.endpoints

abbrev pub outbound_section : Component OutboundSection Event
outbound_section = record { Offered = Offered; react = react }

-- An endpoint that is created or changed has a name and an address that are not blank.
abbrev pub IsEndpoint : Call → Type 0
IsEndpoint (create_endpoint name url enabled) = (truthy name ≡ true) × (truthy url ≡ true)
IsEndpoint (update_endpoint name url enabled) = (truthy name ≡ true) × IsGiven url
IsEndpoint (promise_all a b) = IsEndpoint a × IsEndpoint b
IsEndpoint _ = Unit {0}

fetch_endpoints-Calls : Calls IsEndpoint fetch_endpoints
unfolding fetch_endpoints
fetch_endpoints-Calls = search call_rules depth 14

module _ (f : Fields) (named : truthy f.name ≡ true) (addressed : truthy f.url ≡ true) where
  created-Calls :
      Calls {S = OutboundSection} IsEndpoint (call (create_endpoint f.name f.url (some f.enabled)))
  created-Calls =
      call-Calls OutboundSection IsEndpoint (create_endpoint f.name f.url (some f.enabled))
        (named, addressed)

  save-Calls : (editing : Option Text) → Calls IsEndpoint (save editing f)
  unfolding save
  save-Calls none = created-Calls
  save-Calls (some editing) = elim (Bool-cases (truthy editing)) [
    | inl given ↦ rw given (
        call-Calls OutboundSection IsEndpoint
          (update_endpoint editing (some f.url) (some f.enabled)) (given, addressed))
    | inr blank ↦ rw blank created-Calls
  ]

save-IsEndpoint-Calls :
    (f : Fields) → truthy f.name ≡ true → truthy f.url ≡ true → Calls IsEndpoint (handle_save f)
unfolding handle_save
save-IsEndpoint-Calls f named addressed =
    let saved = save-Calls f named addressed f.editing in
    search (saved, fetch_endpoints-Calls, call_rules) depth 16

handle_test-Calls : (url : Text) → Calls IsEndpoint (handle_test url)
unfolding handle_test
handle_test-Calls url = search call_rules depth 16

handle_delete-Calls :
    (confirmed : Bool) (name : Text) → Calls IsEndpoint (handle_delete confirmed name)
unfolding handle_delete
handle_delete-Calls true name = search (fetch_endpoints-Calls, call_rules) depth 14
handle_delete-Calls false name = search call_rules

react-Calls :
    (s : OutboundSection) (e : Event) → Offered s e → TaskCalls IsEndpoint (react s e).task
unfolding react
react-Calls s mounted offered = to_task-Calls IsEndpoint _ fetch_endpoints-Calls
react-Calls s save_clicked (loaded, shown, free, named, addressed) =
    to_task-Calls IsEndpoint _ (save-IsEndpoint-Calls s.fields named addressed)
react-Calls s (test_clicked ep) offered = to_task-Calls IsEndpoint _ (handle_test-Calls ep.url)
react-Calls s (delete_clicked confirmed ep) offered =
    to_task-Calls IsEndpoint _ (handle_delete-Calls confirmed ep.name)
react-Calls s _ offered = done-TaskCalls OutboundSection IsEndpoint

-- Whatever the user does in the section and in whatever order the replies come, every endpoint that
-- a handler creates or changes, now or after any further replies, has a name and an address that are
-- not blank.
pub Reach-IsEndpoint :
    (s : OutboundSection) (c : Config OutboundSection)
    → Reach outbound_section (record { state = s; waiting = [] }) c
    → WaitingCalls IsEndpoint c
Reach-IsEndpoint s c r =
    Reach-WaitingCalls IsEndpoint outbound_section react-Calls
      {c = record { state = s; waiting = [] }} tt r
