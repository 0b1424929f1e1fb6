-- ===== src/Inventory/InboundLotDialog.antt =====
-- web/src/pages/inventory/InboundLotDialog.tsx
pub mod Laws
pub mod View
use home_stock.Common.{Option, none, some, Bool, true, false, not, [], List, if◌then◌else◌, find}
use home_stock.Js.Text.{Text, lit, truthy, eq_text, trim, or_text, or_none}
use home_stock.Js.Number.{or_number, whole}
use home_stock.Js.Host.{Host}
use home_stock.Js.Outcome
use home_stock.Js.Outcome.{Outcome, ok}
use home_stock.Js.Dates.{optional_date}
use home_stock.Types.{Category, InboundStockLotPayload}
use home_stock.Async.{Async, ◌>>=◌, ◌>>◌, update, resolve}
use home_stock.Inventory.Shell.{Shell, or_blank, set_error, submit}
use home_stock.Async.Slot.{Slot}

pub record FormState : Type 0 where
  pub name : Text
  pub spec : Text
  pub category_id : Text
  pub quantity : Text
  pub unit : Text
  pub location : Text
  pub purchased_at : Text
  pub expire_at : Text
  pub notes : Text

-- The dialog's own state.
pub record InboundLotDialog : Type 0 where
  pub form : FormState
  pub shell : Shell

-- `i18n.language === 'en' ? 'pcs' : '件'`
abbrev pub default_unit : Text → Text
default_unit language = if eq_text language (lit "en") then lit "pcs" else lit "件"

-- The form of the first render; `today` is `new Date().toISOString().slice(0, 10)`.
unfoldable pub blank_form : Text → Text → FormState
blank_form language today = record {
  name = [];
  spec = [];
  category_id = [];
  quantity = lit "1";
  unit = default_unit language;
  location = [];
  purchased_at = today;
  expire_at = [];
  notes = [];
}

abbrev category_id_of : Option Category → Text
category_id_of none = []
category_id_of (some c) = c.id

-- The effect that runs when the dialog opens, or one of its properties changes while it is open.
unfoldable pub on_open :
    Text
    → Text
    → Bool
    → List Category
    → Option Text
    → Option Text
    → InboundLotDialog
    → InboundLotDialog
unfolding blank_form
on_open language today false categories initial_name initial_spec d = d
on_open language today true categories initial_name initial_spec d =
    let default_category = find (λ c. eq_text c.name (lit "默认分类")) categories in
    record d {
      form = record (blank_form language today) {
        name = or_blank initial_name;
        spec = or_blank initial_spec;
        category_id = category_id_of default_category;
      };
      shell = record (d.shell) { error = [] };
    }

-- The argument of `onSubmit`; a date that cannot be read makes it throw.
unfoldable pub payload : Host → Text → FormState → Outcome InboundStockLotPayload
payload host language form = Outcome.◌>>=◌ (optional_date host form.purchased_at) λ purchased_at.
    Outcome.◌>>=◌ (optional_date host form.expire_at) λ expire_at. ok (record {
      material_id = none;
      name = some (trim form.name);
      spec = or_none (trim form.spec);
      category_id = or_none form.category_id;
      quantity = or_number (host.number_of form.quantity) (whole 1);
      unit = some (or_text (trim form.unit) (default_unit language));
      location = or_none (trim form.location);
      expire_at = expire_at;
      purchased_at = purchased_at;
      notes = or_none (trim form.notes);
    })

-- `handleSubmit`, in the page's state; `form` and `language` are the render's.
unfoldable pub handle_submit :
    {S : Type 0}
    → Host
    → Slot S Shell
    → Text
    → FormState
    → (InboundStockLotPayload → Async S (Unit {0}))
    → (S → S)
    → Async S (Unit {0})
handle_submit host slot language form on_submit on_close =
    if not (truthy (trim form.name))
    then update (set_error slot (host.translate "inbound_errorNameRequired"))
    else submit slot (host.translate "inbound_errorFailed")
        do p ← resolve (payload host language form); on_submit p; update on_close
