-- ===== src/Auth/Laws.antt =====
-- What holds of the session in every reachable state.
use home_stock.Common.{◌≡◌, refl, ◌⊎◌, inl, inr, Option, none, some, true, false, [], Bool-cases}
use home_stock.Js.Text.{Text, truthy}
use home_stock.Js.Host.{Host}
use home_stock.Types.{User}
use home_stock.Api.{login, me}
use home_stock.Async.Pool.{Config, Reach}
use home_stock.Async.Pool.Keeps.{
  TaskKeeps, Keeps, >>=-Keeps, call-Keeps, update-Keeps, catch-Keeps, keep_rules, done-TaskKeeps,
  to_task-TaskKeeps, IsKept, Reach-IsKept,
}
use home_stock.Auth.{
  Session, Event, started, login_submitted, logout_clicked, unauthorized, initialize, restore,
  try_me, read_token, handle_login, login_async, logout, on_unauthorized, save_token, Offered,
  react, auth,
}

-- A user who is logged in has a token and a user; one who is not has neither.
abbrev pub IsSession : Session → Type 0
IsSession s =
    ((s.auth.is_authenticated ≡ true)
      × ((t : Text) × (s.auth.token ≡ some t))
      × ((u : User) × (s.auth.user ≡ some u)))
    ⊎ ((s.auth.is_authenticated ≡ false) × (s.auth.token ≡ none) × (s.auth.user ≡ none))

login_async-Keeps : (u p : Text) → Keeps IsSession (login_async u p)
unfolding login_async
login_async-Keeps u p = >>=-Keeps IsSession _ _ (call-Keeps IsSession (login u p)) λ res.
    >>=-Keeps IsSession _ _ (update-Keeps IsSession _ λ s h. h)
      λ _. update-Keeps IsSession _ λ s h. inl (refl, (res.token, refl), (res.user, refl))

restore-Keeps : (t : Option Text) → Keeps IsSession (restore t)
unfolding restore try_me
restore-Keeps none = update-Keeps IsSession _ λ s h. h
restore-Keeps (some t) = elim (Bool-cases (truthy t)) [
  | inl stored ↦ rw stored (
      catch-Keeps IsSession _ _
        (>>=-Keeps IsSession _ _ (call-Keeps IsSession me)
          λ user. update-Keeps IsSession _ λ s h. inl (refl, (t, refl), (user, refl)))
        (λ e.
          >>=-Keeps IsSession _ _ (update-Keeps IsSession _ λ s h. h)
            λ _. update-Keeps IsSession _ λ s h. h))
  | inr blank ↦ rw blank (update-Keeps IsSession _ λ s h. h)
]

initialize-Keeps : Keeps IsSession initialize
unfolding initialize Keeps
initialize-Keeps = λ s. restore-Keeps (read_token s.storage)

handle_login-Keeps : (host : Host) (u p : Text) → Keeps IsSession (handle_login host u p)
unfolding handle_login
handle_login-Keeps host u p = search (login_async-Keeps, keep_rules) depth 14

logout-IsSession : (s : Session) → IsSession (logout s)
unfolding logout
logout-IsSession s = inr (refl, refl, refl)

on_unauthorized-IsSession : (s : Session) → IsSession (on_unauthorized s)
unfolding on_unauthorized
on_unauthorized-IsSession s = logout-IsSession (record s { storage = save_token none s.storage })

react-Keeps :
    (host : Host) (s : Session) (e : Event)
    → Offered s e
    → IsSession s
    → IsSession ((react host s e).change s) × TaskKeeps IsSession (react host s e).task
unfolding react
react-Keeps host s started offered h = (h, to_task-TaskKeeps IsSession _ initialize-Keeps)
react-Keeps host s login_submitted offered h =
    (h, to_task-TaskKeeps IsSession _ (handle_login-Keeps host _ _))
react-Keeps host s logout_clicked offered h = (logout-IsSession s, done-TaskKeeps IsSession)
react-Keeps host s unauthorized offered h = (on_unauthorized-IsSession s, done-TaskKeeps IsSession)
react-Keeps host s _ offered h = (h, done-TaskKeeps IsSession)

-- From a session in which a user who is logged in has a token and a user, and one who is not has
-- neither, the client reaches only such sessions, whatever the user does, in whatever order the
-- replies come, and whenever a request is refused.
pub Reach-IsSession :
    (host : Host) (s : Session) (c : Config Session)
    → IsSession s
    → Reach (auth host) (record { state = s; waiting = [] }) c
    → IsSession c.state
Reach-IsSession host s c h r =
    let start_kept : IsKept IsSession (record { state = s; waiting = [] }) = record {
      holds = h;
      tasks = tt;
    } in
    (Reach-IsKept IsSession (auth host) (react-Keeps host) start_kept r).holds
