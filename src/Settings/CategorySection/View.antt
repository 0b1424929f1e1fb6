-- ===== src/Settings/CategorySection/View.antt =====
-- What web/src/pages/settings/CategorySection.tsx shows.
use home_stock.Common.{Option, none, some, Bool, false, ◌||◌, not, if◌then◌else◌}
use home_stock.Js.Text.{Text, truthy, trim, or_none, eq_text}
use home_stock.Js.Host.{Host}
use home_stock.Types.{Category}
use home_stock.Ui.{Control, input, Table, table_of, Section, spinner, section}
use home_stock.Settings.CategorySection.{CategorySection}

-- A category: the input of its new name, or its name with two buttons.
pub data CategoryRow : Type 0 where
  edited : (id value : Text) → (save_disabled : Bool) → CategoryRow
  named : (id name : Text) → (delete_disabled : Bool) → CategoryRow

pub record CategoryView : Type 0 where
  pub title : Text
  pub description : Text
  pub error : Option Text
  pub new_name : Control
  pub add_disabled : Bool
  pub add_label : Text
  pub categories : Table CategoryRow

-- `editingId === cat.id`
abbrev pub is_id : Text → Option Text → Bool
is_id id none = false
is_id id (some other) = eq_text other id

unfoldable pub category_row : CategorySection → Category → CategoryRow
category_row s cat =
    if is_id cat.id s.editing_id
    then edited cat.id s.edit_name (s.saving_edit cat.id)
    else named cat.id cat.name (is_id cat.id s.deleting_id)

unfoldable pub category_view : Host → CategorySection → Section CategoryView
unfolding category_row
category_view host s =
    if s.loading
    then spinner
    else section record {
      title = host.translate "categorySectionTitle";
      description = host.translate "categorySectionDescription";
      error = or_none s.error;
      new_name =
          input (host.translate "categoryName") s.new_name
            (some (host.translate "categoryNamePlaceholder"));
      add_disabled = s.adding || not (truthy (trim s.new_name));
      add_label = host.translate "categoryAdd";
      categories =
          table_of (host.translate "categoryEmpty") s.categories (category_row s) s.categories;
    }
