-- ===== src/Settings/CategorySection/Events/Rest.antt =====
-- The handlers of web/src/pages/settings/CategorySection.tsx and the marks of what is under way.
use home_stock.Common.{inl, inr, Option, none, some, Bool, true, false, [], Bool-cases}
use home_stock.Js.Text.{Text, lit, truthy, trim, eq_text}
use home_stock.Js.Host.{Host}
use home_stock.Async.{to_task}
use home_stock.Async.Pool.Keeps.{Keeps, keep_rules}
use home_stock.Async.Pool.Rest.{Restores, done-Restores}
use home_stock.Async.Pool.Rest.Reached.{Rests}
use home_stock.Async.Pool.Rest.Finally.{Frees, Keeps-Restores, if-Restores, framed-Restores}
use home_stock.Settings.CategorySection.{
  CategorySection, fetch_categories, set_saving, set_error, handle_add, start_edit, cancel_edit,
  handle_update, handle_delete,
}
use home_stock.Settings.CategorySection.Events.{
  mounted, new_name_key, add_clicked, edit_name_key, update_clicked, delete_clicked, react,
  category_section,
}

pub record Flags : Type 0 where
  pub loading : Bool
  pub adding : Bool
  pub deleting_id : Option Text
  pub saving_edit : Text → Bool

abbrev flags : CategorySection → Flags
flags s = record {
  loading = s.loading;
  adding = s.adding;
  deleting_id = s.deleting_id;
  saving_edit = s.saving_edit;
}

-- A property of the flags: for each of them, it does not matter, or its last value satisfies it.
module _ (P : Flags → Type 0)
    (free_loading : (s : CategorySection) → P (flags s) → P (record (flags s) { loading = false }))
    (free_adding : Frees
      (λ s. P (flags s))
      (λ s. record s { adding = true })
      (λ s. record s { adding = false }))
    (free_saving : (id : Text)
      → Frees (λ s. P (flags s)) (set_saving id true) (set_saving id false))
    (free_deleting : (id : Text)
      → Frees
          (λ s. P (flags s))
          (λ s. record s { deleting_id = some id })
          (λ s. record s { deleting_id = none }))
    (host : Host) where
  abbrev Q : CategorySection → Type 0
  Q s = P (flags s)

  fetch_categories-Keeps : Keeps Q (fetch_categories host)
  unfolding fetch_categories
  fetch_categories-Keeps = search (keep_rules, free_loading) depth 12

  add-Restores : (name : Text) → Restores Q (to_task (handle_add host name))
  unfolding handle_add
  add-Restores name =
      if-Restores Q (truthy (trim name)) _ _
        (framed-Restores Q _ (set_error []) _ (λ s q. q) _
          (search (fetch_categories-Keeps, keep_rules) depth 12) free_adding)
        (Keeps-Restores Q _ (search keep_rules depth 4))

  update-Restores : (name id : Text) → Restores Q (to_task (handle_update host name id))
  unfolding handle_update
  update-Restores name id =
      if-Restores Q (truthy (trim name)) _ _
        (framed-Restores Q _ (set_error []) _ (λ s q. q) _
          (search (fetch_categories-Keeps, keep_rules) depth 12) (free_saving id))
        (Keeps-Restores Q _ (search keep_rules depth 4))

  delete-Restores :
      (confirmed : Bool) (id : Text) → Restores Q (to_task (handle_delete host confirmed id))
  unfolding handle_delete
  delete-Restores confirmed id =
      if-Restores Q confirmed _ _
        (framed-Restores Q _ (set_error []) _ (λ s q. q) _
          (search (fetch_categories-Keeps, keep_rules) depth 12) (free_deleting id))
        (Keeps-Restores Q _ (search keep_rules depth 4))

  pub react-Rests : Rests Q (category_section host)
  unfolding react start_edit cancel_edit
  react-Rests s mounted offered = inl (λ h. h, Keeps-Restores Q _ fetch_categories-Keeps)
  react-Rests s (new_name_key key) offered = elim (Bool-cases (eq_text key (lit "Enter"))) [
    | inl enter ↦ rw enter (inl (λ h. h, add-Restores s.new_name))
    | inr other ↦ rw other (inl (λ h. h, done-Restores Q))
  ]
  react-Rests s add_clicked offered = inl (λ h. h, add-Restores s.new_name)
  react-Rests s (edit_name_key cat key) offered = elim (Bool-cases (eq_text key (lit "Enter"))) [
    | inl enter ↦ rw enter (inl (λ h. h, update-Restores s.edit_name cat.id))
    | inr other ↦ elim (Bool-cases (eq_text key (lit "Escape"))) [
      | inl escape ↦ rw (other, escape) (inl (λ h. h, done-Restores Q))
      | inr neither ↦ rw (other, neither) (inl (λ h. h, done-Restores Q))
    ]
  ]
  react-Rests s (update_clicked cat) offered = inl (λ h. h, update-Restores s.edit_name cat.id)
  react-Rests s (delete_clicked confirmed cat) offered =
      inl (λ h. h, delete-Restores confirmed cat.id)
  react-Rests s _ offered = inl (λ h. h, done-Restores Q)
