-- ===== src/Ui.antt =====
-- What the pages give the widgets of web/src/components/ui, as far as it depends on their data: the
-- variants of badges, tables, quantities and forms.
use home_stock.Common.{Option, none, some, Bool, List, [], ◌∷◌, ◌++◌, map, if◌then◌else◌}
use home_stock.Js.Text.{Text, lit}
use home_stock.Js.Number.{Number, zero_number, lt_number}
use home_stock.Js.Host.{Host}

pub data BadgeVariant : Type 0 where
  default secondary destructive outline : BadgeVariant

-- `{quantity_delta > 0 ? '+' : ''}{quantity_delta} {unit}`
abbrev pub delta_text : Host → Number → Text → Text
delta_text host delta unit =
    (if lt_number zero_number delta then lit "+" else [])
    ++ (host.text_of delta ++ (lit " " ++ unit))

-- `{quantity} {unit}`
abbrev pub quantity_text : Host → Number → Text → Text
quantity_text host quantity unit = host.text_of quantity ++ (lit " " ++ unit)

-- The body of a table: a row that says that there is nothing, or a row for each item.
pub data Table (A : Type 0) : Type 0 where
  empty_row : Text → Table A
  rows : List A → Table A

-- `xs.length === 0 ? … : ys.map(…)`
abbrev pub table_of : {A B C : Type 0} → Text → List C → (A → B) → List A → Table B
table_of nothing [] row ys = empty_row nothing
table_of nothing (x ∷ xs) row ys = rows (map row ys)

-- A labelled input of a form, a choice of the values of these options, with their labels, or a box
-- to tick.
pub data Control : Type 0 where
  input : (label value : Text) → (placeholder : Option Text) → Control
  select : (label value placeholder : Text) → List (Text × Text) → Control
  checkbox : (label : Text) → (hint : Option Text) → (checked : Bool) → Control

pub record FormView : Type 0 where
  pub title : Text
  pub description : Option Text
  pub controls : List Control
  -- a line below the first control
  pub notice : Option Text
  pub error : Option Text
  pub cancel_disabled : Bool
  pub submit_disabled : Bool
  pub submit_label : Text

-- `{submitting ? t(busy) : t(label)}`
abbrev pub submit_text : Bool → Text → Text → Text
submit_text submitting busy label = if submitting then busy else label

-- `if (loading) return <spinner>`
pub data Section (A : Type 0) : Type 0 where
  spinner : Section A
  section : A → Section A

-- `{shown && …}`
abbrev pub when : {A : Type 0} → Bool → A → Option A
when shown a = if shown then some a else none

-- `{xs.length === 0 && …}`
abbrev pub nothing_text : {A : Type 0} → Text → List A → Option Text
nothing_text nothing [] = some nothing
nothing_text nothing (x ∷ xs) = none
