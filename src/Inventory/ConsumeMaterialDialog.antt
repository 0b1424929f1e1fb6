-- ===== src/Inventory/ConsumeMaterialDialog.antt =====
-- web/src/pages/inventory/ConsumeMaterialDialog.tsx
pub mod Laws
pub mod View
use home_stock.Common.{Option, none, some, Bool, true, false, not, ◌||◌, [], if◌then◌else◌}
use home_stock.Js.Text.{Text, lit, trim, or_none}
use home_stock.Js.Number.{Number, zero_number, is_finite, le_number}
use home_stock.Js.Host.{Host}
use home_stock.Types.{MaterialSummary, ConsumeMaterialPayload}
use home_stock.Async.{Async, ◌>>=◌, ◌>>◌, update}
use home_stock.Async.Slot.{Slot}
use home_stock.Inventory.Shell.{Shell, set_error, submit}

pub record Fields : Type 0 where
  pub quantity : Text
  pub reason : Text

pub record ConsumeMaterialDialog : Type 0 where
  pub fields : Fields
  pub shell : Shell

abbrev pub blank_fields : Fields
blank_fields = record { quantity = lit "1"; reason = [] }

-- The effect that runs when `open` or `material` changes.
unfoldable pub on_open : Bool → ConsumeMaterialDialog → ConsumeMaterialDialog
on_open false d = d
on_open true d = record { fields = blank_fields; shell = record (d.shell) { error = [] } }

-- `!Number.isFinite(n) || n <= 0`
unfoldable pub is_invalid : Number → Bool
is_invalid n = not (is_finite n) || le_number n zero_number

unfoldable pub payload : Number → Fields → ConsumeMaterialPayload
payload next_quantity f = record { quantity = next_quantity; reason = or_none (trim f.reason) }

-- What follows once there is a material.
unfoldable pub submit_quantity :
    {S : Type 0}
    → Host
    → Slot S Shell
    → Number
    → Fields
    → (ConsumeMaterialPayload → Async S (Unit {0}))
    → (S → S)
    → Async S (Unit {0})
submit_quantity host slot next_quantity f on_submit on_close =
    if is_invalid next_quantity
    then update (set_error slot (host.translate "consume_errorInvalidQuantity"))
    else submit slot (host.translate "consume_errorFailed")
        do on_submit (payload next_quantity f); update on_close

unfoldable pub handle_submit :
    {S : Type 0}
    → Host
    → Slot S Shell
    → Option MaterialSummary
    → Fields
    → (ConsumeMaterialPayload → Async S (Unit {0}))
    → (S → S)
    → Async S (Unit {0})
unfolding submit_quantity
handle_submit host slot none f on_submit on_close =
    update (set_error slot (host.translate "consume_errorNoMaterial"))
handle_submit host slot (some material) f on_submit on_close =
    submit_quantity host slot (host.number_of f.quantity) f on_submit on_close
