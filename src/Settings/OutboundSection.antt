-- ===== src/Settings/OutboundSection.antt =====
-- web/src/pages/settings/OutboundSection.tsx
pub mod View
pub mod Events
use home_stock.Common.{Option, none, some, Bool, true, false, List, [], ◌∷◌, if◌then◌else◌}
use home_stock.Js.Text.{Text, lit, truthy}
use home_stock.Js.Outcome.{message_or}
use home_stock.Api.{
  EndpointConfig, list_endpoints, create_endpoint, update_endpoint, delete_endpoint, test_endpoint,
}
use home_stock.Async.{Async, ret, ◌>>=◌, ◌>>◌, call, catch, finally, update}

pub record Fields : Type 0 where
  pub editing : Option Text
  pub name : Text
  pub url : Text
  pub enabled : Bool

pub record OutboundSection : Type 0 where
  pub endpoints : List EndpointConfig
  pub loading : Bool
  pub show_form : Bool
  pub fields : Fields
  pub saving : Bool
  pub test_result : Text
  pub testing : Bool
  pub alerts : List Text

abbrev pub blank_fields : Fields
blank_fields = record { editing = none; name = []; url = []; enabled = true }

abbrev alert : Text → OutboundSection → OutboundSection
alert m s = record s { alerts = m ∷ s.alerts }

unfoldable pub fetch_endpoints : Async OutboundSection (Unit {0})
fetch_endpoints =
    finally
      (catch (do res ← call list_endpoints; update (λ s. record s { endpoints = res }))
        (λ e. ret tt))
      (λ s. record s { loading = false })

-- `if (editing)`: a blank name counts as none.
abbrev pub is_editing : Option Text → Bool
is_editing none = false
is_editing (some name) = truthy name

-- The branch of `handleSave` on `editing`; a blank name that is edited counts as none.
unfoldable pub save : Option Text → Fields → Async OutboundSection (Unit {0})
save none f = call (create_endpoint f.name f.url (some f.enabled))
save (some editing) f =
    if truthy editing
    then call (update_endpoint editing (some f.url) (some f.enabled))
    else call (create_endpoint f.name f.url (some f.enabled))

unfoldable pub handle_save : Fields → Async OutboundSection (Unit {0})
unfolding save
handle_save f = do
  update (λ s. record s { saving = true })
  finally
      (catch
        (do
          _ ← save f.editing f
          update (λ s. record s { show_form = false; fields = blank_fields })
          fetch_endpoints)
        (λ e. update (alert (message_or (lit "save failed") e))))
      (λ s. record s { saving = false })

unfoldable pub handle_delete : Bool → Text → Async OutboundSection (Unit {0})
handle_delete confirmed name =
    if confirmed
    then catch (do _ ← call (delete_endpoint name); fetch_endpoints)
        (λ e. update (alert (message_or (lit "delete failed") e)))
    else ret tt

unfoldable pub handle_test : Text → Async OutboundSection (Unit {0})
handle_test test_url = do
  update (λ s. record s { testing = true })
  update (λ s. record s { test_result = [] })
  finally
      (catch
        (do _ ← call (test_endpoint test_url); update (λ s. record s { test_result = lit "sent" }))
        (λ e. update (λ s. record s { test_result = message_or (lit "test failed") e })))
      (λ s. record s { testing = false })
