-- ===== src/Shopping.antt =====
-- web/src/pages/shopping/ShoppingPage.tsx: the list, and its copy in `localStorage`.
pub mod Laws
pub mod View
use home_stock.Common.{
  Option, none, some, Bool, true, false, not, List, [], ◌∷◌, ◌++◌, if◌then◌else◌, filter,
}
use home_stock.Js.Text.{Text, truthy, trim, eq_text}

pub record ShoppingItem : Type 0 where
  pub id : Text
  pub name : Text
  pub created_at : Text

-- What `JSON.parse` comes to: it throws, or it gives a list of items, or a value that the page cannot
-- render, such as `null`. A value that is no list of items and yet renders, such as the empty text, is
-- left out.
pub data Parsed : Type 0 where
  failed : Parsed
  list : List ShoppingItem → Parsed
  unusable : Parsed

-- `JSON.stringify` of a list of items, and `JSON.parse`.
pub record Codec : Type 0 where
  pub stringify : List ShoppingItem → Text
  pub parse : Text → Parsed

-- `localStorage`: whether `getItem` and `setItem` work or throw, and the value of the key of the list.
pub record Storage : Type 0 where
  pub readable : Bool
  pub writable : Bool
  pub items : Option Text

abbrev rendered : Parsed → Option (List ShoppingItem)
rendered failed = some []
rendered (list items) = some items
rendered unusable = none

abbrev read_items : Codec → Option Text → Option (List ShoppingItem)
read_items codec none = some []
read_items codec (some raw) = if truthy raw then rendered (codec.parse raw) else some []

-- `loadItems`; `none` where the first render throws on what it returns.
unfoldable pub load_items : Codec → Storage → Option (List ShoppingItem)
load_items codec s = if s.readable then read_items codec s.items else some []

pub record ShoppingPage : Type 0 where
  pub items : List ShoppingItem
  pub input_value : Text
  pub storage : Storage

-- `saveItems` in the effect; `none` where it throws, and React takes the page away.
unfoldable pub save_items : Codec → ShoppingPage → Option ShoppingPage
save_items codec s =
    if s.storage.writable
    then some (record s { storage = record (s.storage) { items = some (codec.stringify s.items) } })
    else none

abbrev opened : List ShoppingItem → Storage → ShoppingPage
opened items storage = record { items = items; input_value = []; storage = storage }

-- The first render, and its effect.
unfoldable pub mount : Codec → Storage → Option ShoppingPage
unfolding load_items save_items
mount codec storage = elim (load_items codec storage) [
  | none ↦ none
  | some items ↦ save_items codec (opened items storage)
]

-- The id and the time are those that the browser gives.
unfoldable pub add_item : Text → Text → ShoppingPage → ShoppingPage
add_item id now s =
    if truthy (trim s.input_value)
    then record s {
      items = s.items ++ record { id = id; name = trim s.input_value; created_at = now } ∷ [];
      input_value = [];
    }
    else s

unfoldable pub toggle_item : Text → ShoppingPage → ShoppingPage
toggle_item id s = record s { items = filter (λ item. not (eq_text item.id id)) s.items }

pub data Event : Type 0 where
  typed : Text → Event
  -- the button or the key Enter
  added : Text → Text → Event
  toggled : Text → Event

-- An event, and the effect that stores the items after a change of them.
unfoldable pub react : Codec → Event → ShoppingPage → Option ShoppingPage
unfolding add_item toggle_item save_items
react codec (typed v) s = some (record s { input_value = v })
react codec (added id now) s =
    if truthy (trim s.input_value) then save_items codec (add_item id now s) else some s
react codec (toggled id) s = save_items codec (toggle_item id s)

-- `none` where the page is taken away.
unfoldable pub run : Codec → List Event → ShoppingPage → Option ShoppingPage
unfolding react
run codec [] s = some s
run codec (e ∷ es) s = elim (react codec e s) [ none ↦ none | some t ↦ run codec es t ]
