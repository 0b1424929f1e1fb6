-- ===== src/Auth/Restore.antt =====
-- A login and the next start of the client, alone and overlapping.
use home_stock.Common.{arith, ◌==◌, ◌≡◌, refl, ap, ◌∙◌, none, some, true, false, []}
use home_stock.Js.Text.{Text, truthy}
use home_stock.Js.Host.{Host}
use home_stock.Js.Outcome.{Thrown, Outcome, ok, err, other, error}
use home_stock.Http.{Response, result, error_message, dispatches_unauthorized}
use home_stock.Types.{User}
use home_stock.Api.{Call, Reply, login, me, AuthResponse}
use home_stock.Async.{◌>>=◌, catch, finally, update, call, resolve, to_task}
use home_stock.Async.Pool.{Config, settle, fire, answer, Reach, event, reply, here, next}
use home_stock.Auth.{
  AuthState, Session, Storage, started, login_submitted, initial_auth, initialize, restore, try_me,
  LoginPage, read_token, save_token, handle_login, login_async, react, auth, unauthorized, received,
  logout, on_unauthorized,
}

-- The replies of a server to a login and to `me`.
abbrev pub replies_of : Outcome AuthResponse → Outcome User → (c : Call) → Outcome (Reply c)
replies_of login_reply me_reply (login u p) = login_reply
replies_of login_reply me_reply me = me_reply
replies_of login_reply me_reply _ = err (other [])

abbrev pub idle : Session → Config Session
idle s = record { state = s; waiting = [] }

read_token-save_token :
    (t : Text) (storage : Storage)
    → storage.available ≡ true
    → truthy t ≡ true
    → read_token (save_token (some t) storage) ≡ some t
unfolding read_token save_token
read_token-save_token t storage usable nonblank = rw (usable, nonblank) refl

restore-some : (t : Text) → truthy t ≡ true → restore (some t) ≡ try_me t
unfolding restore
restore-some t nonblank = rw nonblank refl

module _ (host : Host) (s : Session) where
  started-settle :
      fire (auth host) (idle s) started ≡ settle (to_task (restore (read_token s.storage))) s []
  unfolding fire react initialize settle to_task
  started-settle = refl

  abbrev restored : Text → User → AuthState
  restored t user = record {
    token = some t;
    user = some user;
    is_authenticated = true;
    is_initialized = true;
  }

  try_me-ok :
      (t : Text) (r : Outcome AuthResponse) (user : User)
      → answer (settle (to_task (try_me t)) s []) 0 (replies_of r (ok user))
        ≡ record { state = record s { auth = restored t user }; waiting = [] }
  unfolding answer settle to_task try_me ◌>>=◌ catch call update resolve
  try_me-ok t r user = refl

  abbrev left_page : LoginPage
  left_page = record (s.login_page) { error = []; left = true; loading = false }

  -- The user submits the login, and the server accepts it.
  pub logged_in : AuthResponse → Config Session
  logged_in res =
      answer (fire (auth host) (idle s) login_submitted) 0 (replies_of (ok res) (err (other [])))

  logged_in_state :
      (res : AuthResponse)
      → logged_in res ≡ record {
        state = record {
          auth = record (s.auth) {
            token = some res.token;
            user = some res.user;
            is_authenticated = true;
          };
          storage = save_token (some res.token) s.storage;
          login_page = left_page;
        };
        waiting = [];
      }
  unfolding logged_in answer fire react handle_login login_async settle to_task ◌>>=◌ catch finally
      call update resolve
  logged_in_state res = refl

-- The client starts anew with what is stored, and the server knows the token.
pub restarted : Host → Session → User → Config Session
restarted host s user =
    answer (fire (auth host) (idle (record s { auth = initial_auth })) started) 0
      (replies_of (err (other [])) (ok user))

restarted-restored :
    (host : Host) (s : Session) (user : User) (t : Text)
    → read_token s.storage ≡ some t
    → truthy t ≡ true
    → (restarted host s user).state.auth ≡ restored host s t user
unfolding restarted
restarted-restored host s user t kept nonblank =
    rw (started-settle host (record s { auth = initial_auth }), kept, restore-some t nonblank)
      (ap (λ c. c.state.auth)
        (try_me-ok host (record s { auth = initial_auth }) t (err (other [])) user))

-- Where the storage can be used and the token is not blank: after a login, a client that starts anew
-- and whose token the server accepts has the same token and the server's user, is logged in, and has
-- been initialized.
pub restarted-logged_in :
    (host : Host) (s : Session) (res : AuthResponse) (user : User)
    → s.storage.available ≡ true
    → truthy res.token ≡ true
    → (restarted host (logged_in host s res).state user).state.auth ≡ record {
      token = some res.token;
      user = some user;
      is_authenticated = true;
      is_initialized = true;
    }
restarted-logged_in host s res user usable nonblank =
    restarted-restored host (logged_in host s res).state user res.token
      (ap (λ c. read_token c.state.storage) (logged_in_state host s res)
        ∙ read_token-save_token res.token s.storage usable nonblank)
      nonblank

read_token-forget : (storage : Storage) → read_token (save_token none storage) ≡ none
unfolding read_token save_token
read_token-forget storage = ground arith

module _ {A : Type 0} (host : Host) (r : Response A) (c : Config Session) where
  received-other : (r.status == 401) ≡ false → received host r c ≡ c
  unfolding received dispatches_unauthorized
  received-other h = ground arith

  received-unauthorized : r.status ≡ 401 → received host r c ≡ fire (auth host) c unauthorized
  unfolding received dispatches_unauthorized
  received-unauthorized h = rw h refl

-- The client starts, the user submits the login, the server accepts it, and then the reply r to `me`
-- arrives, for which `request` throws e.
pub overtaken : Host → Session → AuthResponse → Response User → Thrown → Config Session
overtaken host s res r e =
    answer
      (received host r (
        answer (fire (auth host) (fire (auth host) (idle s) started) login_submitted) 1
          (replies_of (ok res) (err e))))
      0 (replies_of (ok res) (err e))

module _ (host : Host) (s : Session) (stored : Text) (res : AuthResponse) (e : Thrown) where
  abbrev after_login : Config Session → Config Session
  after_login c = answer (fire (auth host) c login_submitted) 1 (replies_of (ok res) (err e))

  abbrev failing : Config Session → Config Session
  failing c = answer c 0 (replies_of (ok res) (err e))

  abbrev stays_in : Session
  stays_in = record {
    auth = record {
      token = some res.token;
      user = some res.user;
      is_authenticated = true;
      is_initialized = true;
    };
    storage = save_token none (save_token (some res.token) s.storage);
    login_page = left_page host s;
  }

  failing-after_login :
      failing (after_login (settle (to_task (try_me stored)) s []))
      ≡ record { state = stays_in; waiting = [] }
  unfolding answer fire react handle_login login_async try_me settle to_task ◌>>=◌ catch finally
      call update resolve
  failing-after_login = refl

  abbrev logged_out : Session
  logged_out = record {
    auth = record { token = none; user = none; is_authenticated = false; is_initialized = true };
    storage =
        save_token none (save_token none (save_token none (save_token (some res.token) s.storage)));
    login_page = left_page host s;
  }

  failing-unauthorized :
      failing (fire (auth host) (after_login (settle (to_task (try_me stored)) s [])) unauthorized)
      ≡ record { state = logged_out; waiting = [] }
  unfolding answer fire react on_unauthorized logout handle_login login_async try_me settle to_task
      ◌>>=◌ catch finally call update resolve
  failing-unauthorized = refl

  try_me-state :
      (settle (to_task (try_me stored)) s []).state.login_page.loading ≡ s.login_page.loading
  unfolding try_me settle to_task ◌>>=◌ catch call
  try_me-state = refl

  module _ (kept : read_token s.storage ≡ some stored) (nonblank : truthy stored ≡ true)
      (free : s.login_page.loading ≡ false) where
    waits : fire (auth host) (idle s) started ≡ settle (to_task (try_me stored)) s []
    waits = rw (started-settle host s, kept, restore-some stored nonblank) refl

    after_login-Reach : Reach (auth host) (idle s) (after_login (fire (auth host) (idle s) started))
    after_login-Reach =
        let still_free : (fire (auth host) (idle s) started).state.login_page.loading ≡ false =
          ap (λ c. c.state.login_page.loading) waits ∙ try_me-state ∙ free in
        next (next (next here (event started tt)) (event login_submitted still_free))
          (reply 1 (replies_of (ok res) (err e)))

-- A restoration does not notice a login that overtakes it. From a session with a stored token that is
-- not blank and a login page that is not loading, if the client starts, the user logs in before the
-- reply to `me`, and that reply, whose status is not 401, then makes the request throw, the client
-- comes to rest logged in, with the user of the login, and without a stored token to send.
pub failed_restore :
    (host : Host) (s : Session) (stored : Text) (res : AuthResponse) (r : Response User)
    (e : Thrown)
    → read_token s.storage ≡ some stored
    → truthy stored ≡ true
    → s.login_page.loading ≡ false
    → result r ≡ err e
    → (r.status == 401) ≡ false
    → let c = overtaken host s res r e in
      Reach (auth host) (idle s) c
      × (c.waiting ≡ [])
      × (c.state.auth.is_authenticated ≡ true)
      × (c.state.auth.user ≡ some res.user)
      × (read_token c.state.storage ≡ none)
unfolding overtaken
failed_restore host s stored res r e kept nonblank free fails other_status =
    let start = after_login host s stored res e (fire (auth host) (idle s) started) in
    let quiet : received host r start ≡ start = received-other host r start other_status in
    let ends : overtaken host s res r e
        ≡ record { state = stays_in host s stored res e; waiting = [] } =
      rw (quiet, waits host s stored res e kept nonblank free)
        (failing-after_login host s stored res e) in
    (
      rw quiet (
          next (after_login-Reach host s stored res e kept nonblank free)
            (reply 0 (replies_of (ok res) (err e)))),
      ap (λ c. c.waiting) ends,
      ap (λ c. c.state.auth.is_authenticated) ends,
      ap (λ c. c.state.auth.user) ends,
      ap (λ c. read_token c.state.storage) ends ∙ read_token-forget _,
    )

-- From a session with a stored token that is not blank and a login page that is not loading, if the
-- client starts, the user logs in before the reply to `me`, and that reply has the status 401: the
-- request throws, and the client comes to rest logged out, without a token or a user, without a stored
-- token to send, and initialized, since the event logs the user out of the new session too.
pub unauthorized_restore :
    (host : Host) (s : Session) (stored : Text) (res : AuthResponse) (r : Response User)
    → read_token s.storage ≡ some stored
    → truthy stored ≡ true
    → s.login_page.loading ≡ false
    → r.status ≡ 401
    → (e : Thrown) × (result r ≡ err e)
      × (let c = overtaken host s res r e in
          Reach (auth host) (idle s) c
          × (c.waiting ≡ [])
          × (c.state.auth ≡ record {
            token = none;
            user = none;
            is_authenticated = false;
            is_initialized = true;
          })
          × (read_token c.state.storage ≡ none))
unfolding overtaken result
unauthorized_restore host s stored res r kept nonblank free refused =
    let e = error (error_message r.status_text r.error_body) in
    let start = after_login host s stored res e (fire (auth host) (idle s) started) in
    let fires : received host r start ≡ fire (auth host) start unauthorized =
      received-unauthorized host r start refused in
    let ends : overtaken host s res r e
        ≡ record { state = logged_out host s stored res e; waiting = [] } =
      rw (fires, waits host s stored res e kept nonblank free)
        (failing-unauthorized host s stored res e) in
    (
      e,
      rw refused refl,
      (
        rw fires (
            next
              (next (after_login-Reach host s stored res e kept nonblank free)
                (event unauthorized tt))
              (reply 0 (replies_of (ok res) (err e)))),
        ap (λ c. c.waiting) ends,
        ap (λ c. c.state.auth) ends,
        ap (λ c. read_token c.state.storage) ends ∙ read_token-forget _,
      ),
    )
