-- ===== src/Auth.antt =====
-- web/src/store/authStore.ts, web/src/components/auth/ProtectedRoute.tsx and the submission of
-- web/src/pages/auth/LoginPage.tsx. `localStorage` keeps the token, or throws on every use.
pub mod Laws
pub mod View
pub mod Restore
use home_stock.Common.{◌≡◌, Option, none, some, Bool, true, false, List, [], if◌then◌else◌}
use home_stock.Js.Text.{Text, truthy}
use home_stock.Js.Host.{Host}
use home_stock.Js.Outcome.{Thrown, message_or}
use home_stock.Types.{User}
use home_stock.Api.{login, me}
use home_stock.Async.{Task, Async, ret, ◌>>=◌, ◌>>◌, call, catch, finally, update, to_task}
use home_stock.Async.Pool.{Reaction, Component, Config, fire}
use home_stock.Http.{Response, dispatches_unauthorized}

pub record AuthState : Type 0 where
  pub token : Option Text
  pub user : Option User
  pub is_authenticated : Bool
  pub is_initialized : Bool

-- `localStorage`: whether it can be used, and the value of `auth_token`.
pub record Storage : Type 0 where
  pub available : Bool
  pub auth_token : Option Text

pub record LoginPage : Type 0 where
  pub username : Text
  pub password : Text
  pub error : Text
  pub loading : Bool
  -- whether `navigate('/')` has been called
  pub left : Bool

pub record Session : Type 0 where
  pub auth : AuthState
  pub storage : Storage
  pub login_page : LoginPage

unfoldable pub initial_auth : AuthState
initial_auth = record {
  token = none;
  user = none;
  is_authenticated = false;
  is_initialized = false;
}

unfoldable pub read_token : Storage → Option Text
read_token s = if s.available then s.auth_token else none

-- A blank token is removed.
unfoldable pub save_token : Option Text → Storage → Storage
save_token token s =
    if s.available
    then record s {
      auth_token = elim token [ none ↦ none | some t ↦ if truthy t then some t else none ];
    }
    else s

abbrev set_auth : (AuthState → AuthState) → Session → Session
set_auth f s = record s { auth = f s.auth }

abbrev forget_token : Session → Session
forget_token s = record s { storage = save_token none s.storage }

unfoldable pub logout : Session → Session
logout s =
    set_auth (λ a. record a { token = none; user = none; is_authenticated = false })
      (forget_token s)

-- The listener of `auth:unauthorized`.
unfoldable pub on_unauthorized : Session → Session
unfolding logout
on_unauthorized s = logout (forget_token s)

unfoldable pub login_async : Text → Text → Async Session (Unit {0})
login_async username password = do
  res ← call (login username password)
  update (λ s. record s { storage = save_token (some res.token) s.storage })
  update (
      set_auth
        λ a. record a { token = some res.token; user = some res.user; is_authenticated = true })

-- The `try` of `initialize`, and all that follows the token that it has read.
unfoldable pub try_me : Text → Async Session (Unit {0})
try_me token =
    catch
      (do
        res ← call me
        update (
            set_auth λ a. record a {
              token = some token;
              user = some res;
              is_authenticated = true;
              is_initialized = true;
            }))
      (λ e. do update forget_token; update (set_auth λ a. record a { is_initialized = true }))

unfoldable pub restore : Option Text → Async Session (Unit {0})
unfolding try_me
restore none = update (set_auth λ a. record a { is_initialized = true })
restore (some token) =
    if truthy token then try_me token else update (set_auth λ a. record a { is_initialized = true })

unfoldable pub initialize : Async Session (Unit {0})
unfolding restore
initialize = Async.get λ s. restore (read_token s.storage)

abbrev set_page : (LoginPage → LoginPage) → Session → Session
set_page f s = record s { login_page = f s.login_page }

-- `handleSubmit` of the login page; the texts are the render's.
unfoldable pub handle_login : Host → Text → Text → Async Session (Unit {0})
unfolding login_async
handle_login host username password = do
  update (set_page λ p. record p { error = [] })
  update (set_page λ p. record p { loading = true })
  finally
      (catch (do login_async username password; update (set_page λ p. record p { left = true }))
        (λ e.
          update (set_page λ p. record p { error = message_or (host.translate "loginFailed") e })))
      (set_page λ p. record p { loading = false })

-- What the route of the protected pages renders.
pub data Route : Type 0 where
  nothing to_login outlet : Route

unfoldable pub protected_route : AuthState → Route
protected_route a =
    if a.is_initialized then (if a.is_authenticated then outlet else to_login) else nothing

-- The application starts once; a reply with the status 401 to any request logs the user out.
pub data Event : Type 0 where
  started : Event
  username_typed password_typed : Text → Event
  login_submitted logout_clicked unauthorized : Event

abbrev now : (Session → Session) → Reaction Session
now f = record { change = f; task = Task.done }

abbrev later : Async Session (Unit {0}) → Reaction Session
later m = record { change = λ s. s; task = to_task m }

unfoldable pub react : Host → Session → Event → Reaction Session
react host s started = later initialize
react host s (username_typed v) = now (set_page λ p. record p { username = v })
react host s (password_typed v) = now (set_page λ p. record p { password = v })
react host s login_submitted = later (handle_login host s.login_page.username s.login_page.password)
react host s logout_clicked = now logout
react host s unauthorized = now on_unauthorized

-- The login button is disabled while the page is loading; only a user who is logged in can log out.
abbrev pub Offered : Session → Event → Type 0
Offered s login_submitted = s.login_page.loading ≡ false
Offered s logout_clicked = s.auth.is_authenticated ≡ true
Offered s _ = Unit {0}

abbrev pub auth : Host → Component Session Event
auth host = record { Offered = Offered; react = react host }

-- A reply arrives: before its handler goes on, `request` dispatches the event if the status is 401.
unfoldable pub received : {A : Type 0} → Host → Response A → Config Session → Config Session
unfolding dispatches_unauthorized
received host r c = if dispatches_unauthorized r then fire (auth host) c unauthorized else c
