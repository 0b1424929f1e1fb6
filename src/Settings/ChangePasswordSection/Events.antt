-- ===== src/Settings/ChangePasswordSection/Events.antt =====
-- What the rendered section offers to its user, what each event does, and what it asks of the
-- server.
use home_stock.Common.{◌≡◌, true, false, []}
use home_stock.Js.Text.{Text, truthy}
use home_stock.Js.Host.{Host}
use home_stock.Api.{Call, change_password}
use home_stock.Async.{Task, to_task}
use home_stock.Async.Rules.{TaskCalls}
use home_stock.Async.Rules.Calls.{to_task-Calls, done-TaskCalls}
use home_stock.Async.Pool.{Reaction, Component, Config, Reach}
use home_stock.Async.Pool.Calls.{WaitingCalls, Reach-WaitingCalls}
use home_stock.Settings.ChangePasswordSection.{Passwords, ChangePasswordSection, handle_save}
use home_stock.Settings.ChangePasswordSection.Laws.{handle_save-Calls}

pub data Event : Type 0 where
  old_typed new_typed confirm_typed : Text → Event
  save_clicked : Event

abbrev now : (ChangePasswordSection → ChangePasswordSection) → Reaction ChangePasswordSection
now f = record { change = f; task = Task.done }

abbrev typed : (Passwords → Passwords) → ChangePasswordSection → ChangePasswordSection
typed f s = record s { passwords = f s.passwords }

unfoldable pub react : Host → ChangePasswordSection → Event → Reaction ChangePasswordSection
react host s (old_typed v) = now (typed λ p. record p { old_password = v })
react host s (new_typed v) = now (typed λ p. record p { new_password = v })
react host s (confirm_typed v) = now (typed λ p. record p { confirm_password = v })
react host s save_clicked = record {
  change = λ t. t;
  task = to_task (handle_save host s.passwords);
}

-- The button is enabled if nothing is being saved and no field is blank.
abbrev pub Offered : ChangePasswordSection → Event → Type 0
Offered s save_clicked =
    (s.saving ≡ false)
    × (truthy s.passwords.old_password ≡ true)
    × (truthy s.passwords.new_password ≡ true)
    × (truthy s.passwords.confirm_password ≡ true)
Offered s _ = Unit {0}

abbrev pub password_section : Host → Component ChangePasswordSection Event
password_section host = record { Offered = Offered; react = react host }

-- A change of the password names the old one and a new one, neither of them blank.
abbrev pub IsChange : Call → Type 0
IsChange (change_password old_password new_password) =
    (truthy old_password ≡ true) × (truthy new_password ≡ true)
IsChange _ = Unit {0}

react-Calls :
    (host : Host) (s : ChangePasswordSection) (e : Event)
    → Offered s e
    → TaskCalls IsChange (react host s e).task
unfolding react
react-Calls host s save_clicked (free, old_given, new_given, confirmed) =
    to_task-Calls IsChange _
      (handle_save-Calls host s.passwords IsChange (λ same. (old_given, new_given)))
react-Calls host s _ offered = done-TaskCalls ChangePasswordSection IsChange

-- Whatever the user does in the section and in whatever order the replies come, every change of the
-- password that a handler asks for names an old and a new password that are not blank.
Reach-IsChange :
    (host : Host) (s : ChangePasswordSection) (c : Config ChangePasswordSection)
    → Reach (password_section host) (record { state = s; waiting = [] }) c
    → WaitingCalls IsChange c
Reach-IsChange host s c r =
    Reach-WaitingCalls IsChange (password_section host) (react-Calls host)
      {c = record { state = s; waiting = [] }} tt r
