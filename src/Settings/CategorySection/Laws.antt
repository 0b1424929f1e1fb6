-- ===== src/Settings/CategorySection/Laws.antt =====
-- What the section asks of the server, and how its handlers end.
use home_stock.Common.{◌≡◌, refl, none, Bool, true, false, Bool-cases, inl, inr}
use home_stock.Js.Text.{Text, truthy, trim, eq_text_refl}
use home_stock.Js.Text.Trim.{IsTrimmed, trim-IsTrimmed}
use home_stock.Js.Host.{Host}
use home_stock.Js.Outcome.{ok}
use home_stock.Api.{Call, promise_all, create_category, update_category}
use home_stock.Async.Rules.{Ends, Calls}
use home_stock.Async.Rules.Ends.{update_then-Ends, finished-Ends}
use home_stock.Async.Rules.Calls.{call_rules}
use home_stock.Settings.CategorySection.{
  CategorySection, fetch_categories, handle_add, handle_update, handle_delete,
}

-- A category that is created or renamed has a name, without white space at its ends.
abbrev pub IsNamed : Call → Type 0
IsNamed (create_category name) = (truthy name ≡ true) × IsTrimmed name
IsNamed (update_category id name) = (truthy name ≡ true) × IsTrimmed name
IsNamed (promise_all a b) = IsNamed a × IsNamed b
IsNamed _ = Unit {0}

module _ (host : Host) where
  pub fetch_categories-Calls : Calls IsNamed (fetch_categories host)
  unfolding fetch_categories
  fetch_categories-Calls = search call_rules depth 14

  pub handle_add-Calls : (new_name : Text) → Calls IsNamed (handle_add host new_name)
  unfolding handle_add
  handle_add-Calls new_name = elim (Bool-cases (truthy (trim new_name))) [
    | inl named ↦
        let valid : IsNamed (create_category (trim new_name)) = (named, trim-IsTrimmed new_name) in
        rw named (search (fetch_categories-Calls, valid, call_rules) depth 16)
    | inr blank ↦ rw blank (search call_rules)
  ]

  pub handle_update-Calls : (edit_name id : Text) → Calls IsNamed (handle_update host edit_name id)
  unfolding handle_update
  handle_update-Calls edit_name id = elim (Bool-cases (truthy (trim edit_name))) [
    | inl named ↦
        let valid : IsNamed (update_category id (trim edit_name)) =
          (named, trim-IsTrimmed edit_name) in
        rw named (search (fetch_categories-Calls, valid, call_rules) depth 16)
    | inr blank ↦ rw blank (search call_rules)
  ]

  pub handle_delete-Calls :
      (confirmed : Bool) (id : Text) → Calls IsNamed (handle_delete host confirmed id)
  unfolding handle_delete
  handle_delete-Calls true id = search (fetch_categories-Calls, call_rules) depth 16
  handle_delete-Calls false id = search call_rules

  -- Where the names are not blank and the deletion is confirmed: whatever the server replies and
  -- however other handlers interfere, when all calls have been replied to, each handler has ended
  -- without throwing, and its mark is gone: nothing is being added, the edited category is not
  -- being saved, none is being deleted.
  category_handlers-Ends :
      (new_name edit_name id : Text) (s : CategorySection)
      → truthy (trim new_name) ≡ true
      → truthy (trim edit_name) ≡ true
      → Ends (λ t o. (o ≡ ok tt) × (t.adding ≡ false)) (handle_add host new_name) s
        × Ends (λ t o. (o ≡ ok tt) × (t.saving_edit id ≡ false)) (handle_update host edit_name id) s
        × Ends (λ t o. (o ≡ ok tt) × (t.deleting_id ≡ none)) (handle_delete host true id) s
  unfolding handle_add handle_update handle_delete
  category_handlers-Ends new_name edit_name id s named named' = (
    rw named (
        update_then-Ends _ _ _ s
          (update_then-Ends _ _ _ _ (finished-Ends _ _ _ _ _ (λ t. (refl, refl))))),
    rw named' (
        update_then-Ends _ _ _ s (
          update_then-Ends _ _ _ _
            (finished-Ends _ _ _ _ _ (λ t. (refl, rw (eq_text_refl id) refl))))),
    update_then-Ends _ _ _ s
        (update_then-Ends _ _ _ _ (finished-Ends _ _ _ _ _ (λ t. (refl, refl)))),
  )
