-- ===== src/Inventory/InboundLotDialog/Laws.antt =====
-- What the dialog hands to the page, and the state in which its handler leaves it.
use home_stock.Common.{◌≡◌, ◌≢◌, refl, some, true, [], ◌∷◌, arith, Bool-cases, inl, inr}
use home_stock.Js.Text.{Text, truthy, trim, or_text, IsGiven, or_none-IsGiven}
use home_stock.Js.Text.Trim.{IsTrimmed, trim-IsTrimmed}
use home_stock.Js.Number.{Number, nan, zero_number, or_number, whole}
use home_stock.Js.Host.{Host}
use home_stock.Js.Outcome.{ok}
use home_stock.Types.{InboundStockLotPayload}
use home_stock.Api.{Call}
use home_stock.Async.{Async}
use home_stock.Async.Rules.{Calls}
use home_stock.Async.Rules.Calls.{call_rules, update-Calls, resolve_then-Calls}
use home_stock.Async.Slot.{Slot}
use home_stock.Inventory.Shell.{Shell}
use home_stock.Inventory.Shell.Laws.{submit-Calls}
use home_stock.Inventory.InboundLotDialog.{FormState, default_unit, payload, handle_submit}

pub record IsValid (p : InboundStockLotPayload) : Type 0 where
  pub name : (n : Text) × (p.name ≡ some n) × (truthy n ≡ true) × IsTrimmed n
  pub unit : (u : Text) × (p.unit ≡ some u) × (truthy u ≡ true)
  pub not_nan : p.quantity ≢ nan
  pub not_zero : p.quantity ≢ zero_number
  pub spec : IsGiven p.spec
  pub category : IsGiven p.category_id
  pub location : IsGiven p.location
  pub notes : IsGiven p.notes

or_text-truthy : (s t : Text) → truthy t ≡ true → truthy (or_text s t) ≡ true
or_text-truthy [] t h = h
or_text-truthy (c ∷ s) t h = refl

default_unit-truthy : (language : Text) → truthy (default_unit language) ≡ true
default_unit-truthy language = ground arith

or_number-ne-nan : (n : Number) → or_number n (whole 1) ≢ nan
unfolding whole
or_number-ne-nan n = ground arith

or_number-ne-zero : (n : Number) → or_number n (whole 1) ≢ zero_number
unfolding whole
or_number-ne-zero n = ground arith

payload-IsValid :
    (host : Host) (language : Text) (form : FormState) (p : InboundStockLotPayload)
    → truthy (trim form.name) ≡ true
    → payload host language form ≡ ok p
    → IsValid p
unfolding payload
payload-IsValid host language form p named e = record {
  name = (trim form.name, ground arith, named, trim-IsTrimmed form.name);
  unit = (
    or_text (trim form.unit) (default_unit language),
    ground arith,
    or_text-truthy (trim form.unit) (default_unit language) (default_unit-truthy language),
  );
  not_nan = ground (arith, or_number-ne-nan (host.number_of form.quantity));
  not_zero = ground (arith, or_number-ne-zero (host.number_of form.quantity));
  spec = ground (arith, or_none-IsGiven (trim form.spec));
  category = ground (arith, or_none-IsGiven form.category_id);
  location = ground (arith, or_none-IsGiven (trim form.location));
  notes = ground (arith, or_none-IsGiven (trim form.notes));
}

module _ {S : Type 0} (host : Host) (slot : Slot S Shell) where
  -- Whatever the form holds, `onSubmit` is called with a valid payload or not at all: if it makes
  -- only calls that satisfy P on valid payloads, so does the handler.
  pub handle_submit-Calls :
      (P : Call → Type 0) (language : Text) (form : FormState)
      (on_submit : InboundStockLotPayload → Async S (Unit {0})) (on_close : S → S)
      → ((p : InboundStockLotPayload) → IsValid p → Calls P (on_submit p))
      → Calls P (handle_submit host slot language form on_submit on_close)
  unfolding handle_submit
  handle_submit-Calls P language form on_submit on_close h =
      elim (Bool-cases (truthy (trim form.name))) [
        | inl named ↦ rw named (
            submit-Calls slot P _ _ (
              resolve_then-Calls P (payload host language form) _
                λ p e. search (h p (payload-IsValid host language form p named e), call_rules)))
        | inr blank ↦ rw blank (update-Calls P _)
      ]
