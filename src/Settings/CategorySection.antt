-- ===== src/Settings/CategorySection.antt =====
-- web/src/pages/settings/CategorySection.tsx
pub mod View
pub mod Laws
pub mod Events
use home_stock.Common.{Option, none, some, Bool, true, false, ◌||◌, List, [], if◌then◌else◌}
use home_stock.Js.Text.{Text, lit, truthy, trim, or_text, eq_text, includes}
use home_stock.Js.Host.{Host}
use home_stock.Js.Outcome.{Thrown, message_or, message_of}
use home_stock.Types.{Category}
use home_stock.Api.{list_categories, create_category, update_category, delete_category}
use home_stock.Async.{Async, ret, ◌>>=◌, ◌>>◌, call, catch, finally, update}

pub record CategorySection : Type 0 where
  pub categories : List Category
  pub loading : Bool
  pub error : Text
  pub new_name : Text
  pub adding : Bool
  pub editing_id : Option Text
  pub edit_name : Text
  pub saving_edit : Text → Bool
  pub deleting_id : Option Text

abbrev set_error : Text → CategorySection → CategorySection
set_error m s = record s { error = m }

unfoldable pub fetch_categories : Host → Async CategorySection (Unit {0})
fetch_categories host =
    finally
      (catch
        (do
          res ← call list_categories
          update (λ s. record s { categories = res.categories })
          update (set_error []))
        (λ e. update (set_error (message_or (host.translate "categoryFetchFailed") e))))
      (λ s. record s { loading = false })

-- `new_name` is the render's, as are the other arguments of the handlers.
unfoldable pub handle_add : Host → Text → Async CategorySection (Unit {0})
handle_add host new_name =
    if truthy (trim new_name)
    then (do
      update (λ s. record s { adding = true })
      update (set_error [])
      finally
          (catch
            (do
              _ ← call (create_category (trim new_name))
              update (λ s. record s { new_name = [] })
              fetch_categories host)
            (λ e. update (set_error (message_or (host.translate "categoryAddFailed") e))))
          (λ s. record s { adding = false }))
    else ret tt

unfoldable pub start_edit : Category → CategorySection → CategorySection
start_edit cat s = record s { editing_id = some cat.id; edit_name = cat.name }

unfoldable pub cancel_edit : CategorySection → CategorySection
cancel_edit s = record s { editing_id = none; edit_name = [] }

-- `setSavingEdit((prev) => ({ ...prev, [id]: b }))`
abbrev pub set_saving : Text → Bool → CategorySection → CategorySection
set_saving id b s = record s { saving_edit = λ k. if eq_text k id then b else s.saving_edit k }

unfoldable pub handle_update : Host → Text → Text → Async CategorySection (Unit {0})
handle_update host edit_name id =
    if truthy (trim edit_name)
    then (do
      update (set_saving id true)
      update (set_error [])
      finally
          (catch
            (do
              _ ← call (update_category id (trim edit_name))
              update (λ s. record s { editing_id = none })
              update (λ s. record s { edit_name = [] })
              fetch_categories host)
            (λ e. update (set_error (message_or (host.translate "categoryUpdateFailed") e))))
          (set_saving id false))
    else ret tt

-- The message for a deletion that has failed: a category in use has its own.
unfoldable pub delete_message : Host → Thrown → Text
delete_message host e =
    if includes (message_of e) (lit "in use") || includes (message_of e) (lit "关联")
    then host.translate "categoryInUse"
    else or_text (message_of e) (host.translate "categoryDeleteFailed")

unfoldable pub handle_delete : Host → Bool → Text → Async CategorySection (Unit {0})
handle_delete host confirmed id =
    if confirmed
    then (do
      update (λ s. record s { deleting_id = some id })
      update (set_error [])
      finally
          (catch (do _ ← call (delete_category id); fetch_categories host)
            (λ e. update (set_error (delete_message host e))))
          (λ s. record s { deleting_id = none }))
    else ret tt
