-- ===== src/Http.antt =====
-- web/src/lib/api.ts: a request of the server, its headers, and what its reply comes to.
pub mod Query
pub mod Requests
pub mod Replies
pub mod Laws
use home_stock.Common.{
  ℕ, Option, none, some, Bool, true, false, ◌&&◌, List, [], ◌∷◌, ◌++◌, leb, ◌==◌, if◌then◌else◌,
}
use home_stock.Js.Text.{Text, lit, truthy}
use home_stock.Js.Number.{Number}
use home_stock.Js.Outcome
use home_stock.Js.Outcome.{Outcome, ok, err, error}

-- A value in a body. Every body that the client sends is an object of such values; a field that is
-- `undefined` is left out, as `JSON.stringify` does.
pub data Json : Type 0 where
  bool : Bool → Json
  number : Number → Json
  text : Text → Json

abbrev pub Body : Type 0
Body = List (Text × Json)

pub data Method : Type 0 where
  get post put patch delete : Method

-- What `request` gets: the path, and of `init` the method and the body.
pub record Request : Type 0 where
  pub method : Method
  pub path : Text
  pub body : Option Body

-- `api.get`, `api.post`, `api.put`, `api.patch`, `api.delete`
abbrev pub api_get : Text → Request
api_get path = record { method = Method.get; path = path; body = none }

abbrev pub api_post : Text → Body → Request
api_post path body = record { method = Method.post; path = path; body = some body }

abbrev pub api_put : Text → Body → Request
api_put path body = record { method = Method.put; path = path; body = some body }

abbrev pub api_patch : Text → Body → Request
api_patch path body = record { method = Method.patch; path = path; body = some body }

abbrev pub api_delete : Text → Request
api_delete path = record { method = Method.delete; path = path; body = none }

-- A blank token is sent as none.
unfoldable pub headers : Option Text → List (Text × Text)
headers none = (lit "Content-Type", lit "application/json") ∷ []
headers (some token) =
    (lit "Content-Type", lit "application/json")
    ∷ (if truthy token then (lit "Authorization", lit "Bearer " ++ token) ∷ [] else [])

-- The body of a failed reply, as `res.json()` reads it: not JSON at all, `null`, or a value with what it
-- has of the two fields.
pub data ErrorBody : Type 0 where
  unreadable : ErrorBody
  -- `null`, with the message of the error that reading its field throws
  null_body : Text → ErrorBody
  fields : Option Text → Option Text → ErrorBody

-- A reply that has arrived. `json` is what `res.json()` comes to for a good one.
pub record Response (A : Type 0) : Type 0 where
  pub status : ℕ
  pub status_text : Text
  pub error_body : ErrorBody
  pub json : Outcome A

-- `err.message ?? err.error ?? res.statusText`, where an unreadable body stands for an object whose
-- message is the status text.
unfoldable pub error_message : Text → ErrorBody → Text
error_message status_text unreadable = status_text
error_message status_text (null_body message) = message
error_message status_text (fields (some message) e) = message
error_message status_text (fields none (some e)) = e
error_message status_text (fields none none) = status_text

-- `res.ok`
abbrev pub is_ok : ℕ → Bool
is_ok status = leb 200 status && leb status 299

-- What `request` resolves to, `none` for `undefined`.
unfoldable pub result : {A : Type 0} → Response A → Outcome (Option A)
result r =
    if is_ok r.status
    then if r.status == 204 then ok none else Outcome.◌>>=◌ r.json (λ a. ok (some a))
    else err (error (error_message r.status_text r.error_body))

-- Whether `request` dispatches `auth:unauthorized`.
unfoldable pub dispatches_unauthorized : {A : Type 0} → Response A → Bool
dispatches_unauthorized r = if is_ok r.status then false else r.status == 401
