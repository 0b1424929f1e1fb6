-- ===== src/Tests/Client.antt =====
-- The laws of the requests, the session and the appearance at concrete inputs.
use home_stock.Common.{inr, ◌≡◌, refl, none, some, true, false, [], ◌∷◌, pos}
use home_stock.Js.Text.{Text, lit, trim}
use home_stock.Js.Number.{fin}
use home_stock.Js.Outcome.{Thrown, err, error}
use home_stock.Types.{User}
use home_stock.Api.{AuthResponse, StockLotQuery}
use home_stock.Async.Pool.{fire, Reach, event, next, here}
use home_stock.Http.{error_message, Response, unreadable, result}
use home_stock.Auth.{Session, initial_auth, auth, login_submitted, read_token}
use home_stock.Auth.Laws.{IsSession, Reach-IsSession}
use home_stock.Auth.Restore.{
  idle, logged_in, restarted, restarted-logged_in, overtaken, failed_restore, unauthorized_restore,
}
use home_stock.Stores.{light, system, theme_chosen, preference, load, mount, run}
use home_stock.Stores.Laws.{IsShown, run-load}
use home_stock.Debounce.{tick, burst, first_render}
use home_stock.Debounce.Refine.{total, last_settled, burst-last_settled}
use home_stock.Common.{ℕ, ◌+◌, List}
use home_stock.Common.{◌++◌}
use home_stock.Inventory.Page.{material_query, lot_query}
use home_stock.Inventory.Page.Initial.{initial_page}
use home_stock.Layout.Header.{search_query, handle_search_key_down}
use home_stock.Layout.Laws.{Decodes, initial_page-search_query}
use home_stock.Tests.Fixtures.{host}

query : StockLotQuery
query = record {
  material_id = none;
  category_id = some (lit "c1");
  location = some [];
  status = none;
  keyword = some (lit "rice");
  expiring_soon = none;
  show_zero_stock = some true;
}

refused : Response User
refused = record {
  status = 401;
  status_text = lit "Unauthorized";
  error_body = unreadable;
  json = err (error []);
}

unavailable : Response User
unavailable = record {
  status = 503;
  status_text = lit "Service Unavailable";
  error_body = unreadable;
  json = err (error []);
}

user : User
user = record {
  id = fin (pos 1);
  username = lit "ann";
  display_name = lit "Ann";
  created_at = [];
  updated_at = [];
}

response : AuthResponse
response = record { token = lit "new"; user = user }

-- A start with an old token.
session : Session
session = record {
  auth = initial_auth;
  storage = record { available = true; auth_token = some (lit "old") };
  login_page = record {
    username = lit "ann";
    password = lit "secret";
    error = [];
    loading = false;
    left = false;
  };
}

Reach-IsSession_example : IsSession (fire (auth host) (idle session) login_submitted).state
unfolding session initial_auth
Reach-IsSession_example =
    Reach-IsSession host session (fire (auth host) (idle session) login_submitted)
      (inr (refl, refl, refl)) (next here (event login_submitted refl))

restarted-logged_in_example :
    (restarted host (logged_in host session response).state user).state.auth ≡ record {
      token = some response.token;
      user = some user;
      is_authenticated = true;
      is_initialized = true;
    }
unfolding session response
restarted-logged_in_example = restarted-logged_in host session response user refl refl

failed_restore_example :
    let c = overtaken host session response unavailable (error (lit "Service Unavailable")) in
    Reach (auth host) (idle session) c
    × (c.waiting ≡ [])
    × (c.state.auth.is_authenticated ≡ true)
    × (c.state.auth.user ≡ some response.user)
    × (read_token c.state.storage ≡ none)
unfolding session response read_token unavailable result error_message
failed_restore_example =
    failed_restore host session (lit "old") response unavailable (error (lit "Service Unavailable"))
      refl refl refl refl refl

unauthorized_restore_example :
    (e : Thrown) × (result refused ≡ err e)
    × (let c = overtaken host session response refused e in
        Reach (auth host) (idle session) c
        × (c.waiting ≡ [])
        × (c.state.auth
            ≡ record { token = none; user = none; is_authenticated = false; is_initialized = true })
        × (read_token c.state.storage ≡ none))
unfolding session response read_token refused
unauthorized_restore_example =
    unauthorized_restore host session (lit "old") response refused refl refl refl refl

run-load_example : IsShown (
    run
      (theme_chosen light ∷ theme_chosen system ∷ preference true ∷ [])
      (false, mount false (load false (record { available = true; theme = none }))))
run-load_example =
    run-load (theme_chosen light ∷ theme_chosen system ∷ preference true ∷ []) false
      (record { available = true; theme = none })

keys : List (Text × ℕ)
keys = (lit "ri", 100) ∷ (lit "rice", 200) ∷ []

burst-last_settled_example :
    (tick (0 + (total 300 keys + 400)) (burst 300 0 keys (first_render 300 (lit "r") 0))).debounced
    ≡ last_settled 300 (lit "r") (lit "r") keys 400
unfolding keys
burst-last_settled_example = burst-last_settled 300 0 (lit "r") keys 400

decodes : Decodes host
decodes s = refl

initial_page-search_query_example :
    (handle_search_key_down host (lit "Enter") (lit " rice ")
      ≡ some (lit "/inventory" ++ (lit "?" ++ search_query host (lit " rice "))))
    × ((initial_page host (lit "?" ++ search_query host (lit " rice "))).search
        ≡ trim (lit " rice "))
    × ((material_query
          (initial_page host (lit "?" ++ search_query host (lit " rice "))).filters).keyword
        ≡ some (trim (lit " rice ")))
    × ((lot_query (initial_page host (lit "?" ++ search_query host (lit " rice "))).filters).keyword
        ≡ some (trim (lit " rice ")))
unfolding trim
initial_page-search_query_example = initial_page-search_query host (lit " rice ") decodes refl
