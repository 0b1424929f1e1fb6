-- ===== src/Inventory/ConsumeMaterialDialog/Laws.antt =====
-- What a consumption sends.
use home_stock.Common.{
  ◌≡◌, ◌≢◌, refl, inl, inr, Option, none, some, false, arith, Bool-cases, ℤ, ◌≤ℤ◌, pos,
}
use home_stock.Js.Number.{Number, fin, nan, infinity, neg_infinity}
use home_stock.Js.Host.{Host}
use home_stock.Types.{MaterialSummary, ConsumeMaterialPayload}
use home_stock.Api.{Call}
use home_stock.Async.{Async}
use home_stock.Async.Rules.{Calls}
use home_stock.Async.Rules.Calls.{call_rules, update-Calls}
use home_stock.Async.Slot.{Slot}
use home_stock.Inventory.Shell.{Shell}
use home_stock.Inventory.Shell.Laws.{submit-Calls}
use home_stock.Inventory.ConsumeMaterialDialog.{Fields, is_invalid, payload, handle_submit}

-- A finite number above 0.
abbrev pub IsPositive : Number → Type 0
IsPositive n = (q : ℤ) × (n ≡ fin q) × ¬ (q ≤ℤ pos 0)

is_invalid-IsPositive : (n : Number) → is_invalid n ≡ false → IsPositive n
unfolding is_invalid
is_invalid-IsPositive nan h = cc
is_invalid-IsPositive infinity h = cc
is_invalid-IsPositive neg_infinity h = cc
is_invalid-IsPositive (fin q) h = (q, refl, ground arith)

pub IsPositive-is_invalid : (n : Number) → IsPositive n → is_invalid n ≡ false
unfolding is_invalid
IsPositive-is_invalid n (q, e, h) = rw e (ground arith)

module _ {S : Type 0} (host : Host) (slot : Slot S Shell) where
  -- `onSubmit` is called with a material at hand and a finite quantity above 0, the one that the
  -- field denotes, or not at all: if it makes only calls that satisfy P on such payloads, so does
  -- the handler.
  pub handle_submit-Calls :
      (P : Call → Type 0) (material : Option MaterialSummary) (f : Fields)
      (on_submit : ConsumeMaterialPayload → Async S (Unit {0})) (on_close : S → S)
      → ((p : ConsumeMaterialPayload)
          → material ≢ none
          → IsPositive p.quantity
          → p.quantity ≡ host.number_of f.quantity
          → Calls P (on_submit p))
      → Calls P (handle_submit host slot material f on_submit on_close)
  unfolding handle_submit payload
  handle_submit-Calls P none f on_submit on_close h = update-Calls P _
  handle_submit-Calls P (some material) f on_submit on_close h =
      elim (Bool-cases (is_invalid (host.number_of f.quantity))) [
        | inl bad ↦ rw bad (update-Calls P _)
        | inr good ↦ rw good (
            submit-Calls slot P _ _ (
              search (
                h (payload (host.number_of f.quantity) f) (λ e. cc) (is_invalid-IsPositive _ good)
                    refl,
                call_rules,
              )))
      ]
