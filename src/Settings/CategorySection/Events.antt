-- ===== src/Settings/CategorySection/Events.antt =====
-- What the rendered section offers to its user, and what each event does.
pub mod Reach
pub mod Rest
pub mod Settled
use mathlib.Core.List.{Memᴰ}
use home_stock.Common.{◌≡◌, ◌≢◌, Option, none, some, Bool, true, false, [], if◌then◌else◌}
use home_stock.Js.Text.{Text, lit, truthy, trim, eq_text}
use home_stock.Js.Host.{Host}
use home_stock.Types.{Category}
use home_stock.Async.{Task, Async, to_task}
use home_stock.Async.Pool.{Reaction, Component}
use home_stock.Settings.CategorySection.{
  CategorySection, fetch_categories, handle_add, start_edit, cancel_edit, handle_update,
  handle_delete,
}

pub data Event : Type 0 where
  mounted : Event
  new_name_typed : Text → Event
  -- a key in the field of the new name
  new_name_key : Text → Event
  add_clicked : Event
  -- the row of the category that is being edited
  edit_name_typed : Text → Event
  edit_name_key : Category → Text → Event
  update_clicked : Category → Event
  cancel_clicked : Category → Event
  -- the row of another category; the user's answer to the question whether to delete it
  edit_clicked : Category → Event
  delete_clicked : Bool → Category → Event

abbrev now : (CategorySection → CategorySection) → Reaction CategorySection
now f = record { change = f; task = Task.done }

abbrev later : Async CategorySection (Unit {0}) → Reaction CategorySection
later m = record { change = λ s. s; task = to_task m }

unfoldable pub react : Host → CategorySection → Event → Reaction CategorySection
react host s mounted = later (fetch_categories host)
react host s (new_name_typed v) = now (λ t. record t { new_name = v })
react host s (new_name_key key) =
    if eq_text key (lit "Enter") then later (handle_add host s.new_name) else now (λ t. t)
react host s add_clicked = later (handle_add host s.new_name)
react host s (edit_name_typed v) = now (λ t. record t { edit_name = v })
react host s (edit_name_key cat key) =
    if eq_text key (lit "Enter")
    then later (handle_update host s.edit_name cat.id)
    else if eq_text key (lit "Escape")
    then now cancel_edit
    else now (λ t. t)
react host s (update_clicked cat) = later (handle_update host s.edit_name cat.id)
react host s (cancel_clicked cat) = now cancel_edit
react host s (edit_clicked cat) = now (start_edit cat)
react host s (delete_clicked confirmed cat) = later (handle_delete host confirmed cat.id)

-- The section when it is first rendered.
abbrev pub initial : CategorySection
initial = record {
  categories = [];
  loading = true;
  error = [];
  new_name = [];
  adding = false;
  editing_id = none;
  edit_name = [];
  saving_edit = λ k. false;
  deleting_id = none;
}

-- While the section loads, it shows nothing of this.
abbrev pub Offered : CategorySection → Event → Type 0
Offered s mounted = Unit {0}
Offered s (new_name_typed v) = s.loading ≡ false
Offered s (new_name_key key) = s.loading ≡ false
Offered s add_clicked = (s.loading ≡ false) × (s.adding ≡ false) × (truthy (trim s.new_name) ≡ true)
Offered s (edit_name_typed v) = (s.loading ≡ false) × (s.editing_id ≢ none)
Offered s (edit_name_key cat key) =
    (s.loading ≡ false) × Memᴰ cat s.categories × (s.editing_id ≡ some cat.id)
Offered s (update_clicked cat) =
    (s.loading ≡ false)
    × Memᴰ cat s.categories
    × (s.editing_id ≡ some cat.id)
    × (s.saving_edit cat.id ≡ false)
Offered s (cancel_clicked cat) =
    (s.loading ≡ false) × Memᴰ cat s.categories × (s.editing_id ≡ some cat.id)
Offered s (edit_clicked cat) =
    (s.loading ≡ false) × Memᴰ cat s.categories × (s.editing_id ≢ some cat.id)
Offered s (delete_clicked confirmed cat) =
    (s.loading ≡ false)
    × Memᴰ cat s.categories
    × (s.editing_id ≢ some cat.id)
    × (s.deleting_id ≢ some cat.id)

abbrev pub category_section : Host → Component CategorySection Event
category_section host = record { Offered = Offered; react = react host }
