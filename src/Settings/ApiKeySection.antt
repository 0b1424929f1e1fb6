-- ===== src/Settings/ApiKeySection.antt =====
-- web/src/pages/settings/ApiKeySection.tsx
pub mod View
pub mod Events
use home_stock.Common.{Bool, true, false, List, [], ◌∷◌, if◌then◌else◌}
use home_stock.Js.Text.{Text, lit, truthy, trim}
use home_stock.Js.Outcome.{message_or}
use home_stock.Api.{list_api_keys, add_api_key, delete_api_key}
use home_stock.Async.{Async, ret, ◌>>=◌, ◌>>◌, call, catch, finally, update}

pub record ApiKeySection : Type 0 where
  pub keys : List Text
  pub loading : Bool
  pub new_key : Text
  pub adding : Bool
  pub show_add : Bool
  pub alerts : List Text

abbrev alert : Text → ApiKeySection → ApiKeySection
alert m s = record s { alerts = m ∷ s.alerts }

-- A failure is passed over in silence.
unfoldable pub fetch_keys : Async ApiKeySection (Unit {0})
fetch_keys =
    finally
      (catch (do res ← call list_api_keys; update (λ s. record s { keys = res })) (λ e. ret tt))
      (λ s. record s { loading = false })

unfoldable pub handle_add : Text → Async ApiKeySection (Unit {0})
handle_add new_key =
    if truthy (trim new_key)
    then (do
      update (λ s. record s { adding = true })
      finally
          (catch
            (do
              _ ← call (add_api_key (trim new_key))
              update (λ s. record s { new_key = [] })
              update (λ s. record s { show_add = false })
              fetch_keys)
            (λ e. update (alert (message_or (lit "add failed") e))))
          (λ s. record s { adding = false }))
    else ret tt

unfoldable pub handle_delete : Bool → Text → Async ApiKeySection (Unit {0})
handle_delete confirmed key =
    if confirmed
    then catch (do _ ← call (delete_api_key key); fetch_keys)
        (λ e. update (alert (message_or (lit "delete failed") e)))
    else ret tt
