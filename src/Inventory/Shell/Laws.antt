-- ===== src/Inventory/Shell/Laws.antt =====
-- How a submission ends, and what it calls.
use home_stock.Js.Text.{Text}
use home_stock.Api.{Call}
use home_stock.Async.{Async}
use home_stock.Async.Slot.{Slot}
use home_stock.Async.Rules.{Calls}
use home_stock.Async.Rules.Calls.{call_rules}
use home_stock.Async.Pool.Keeps.{Keeps, keep_rules}
use home_stock.Inventory.Shell.{Shell, set_error, set_submitting, submit}

module _ {S : Type 0} (slot : Slot S Shell) where
  pub submit-Calls :
      (P : Call → Type 0) (fallback : Text) (body : Async S (Unit {0}))
      → Calls P body
      → Calls P (submit slot fallback body)
  unfolding submit
  submit-Calls P fallback body h = search call_rules depth 12

  pub submit-Keeps :
      (I : S → Type 0) (fallback : Text) (body : Async S (Unit {0}))
      → ((f : Shell → Shell) (t : S) → I t → I (slot.put f t))
      → Keeps I body
      → Keeps I (submit slot fallback body)
  unfolding submit set_error set_submitting
  submit-Keeps I fallback body keeps h = search (keep_rules, keeps) depth 12
