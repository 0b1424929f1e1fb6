-- ===== src/Inventory/Shell/Rest.antt =====
-- A submission, and the mark `submitting`.
use home_stock.Common.{true, [], false}
use home_stock.Js.Text.{Text}
use home_stock.Async.{Async, to_task}
use home_stock.Async.Slot.{Slot}
use home_stock.Async.Pool.Keeps.{Keeps, keep_rules}
use home_stock.Async.Pool.Rest.{Restores}
use home_stock.Async.Pool.Rest.Finally.{Frees, framed-Restores}
use home_stock.Inventory.Shell.{Shell, set_error, set_submitting, submit}

module _ {S : Type 0} (slot : Slot S Shell) (Q : S → Type 0) where
  -- Q does not depend on whether the dialog submits, or it holds when the dialog does not.
  abbrev pub FreeOf : Type 0
  FreeOf = Frees Q (set_submitting slot true) (set_submitting slot false)

  pub submit-Restores_free :
      ((m : Text) (s : S) → Q s → Q (set_error slot m s))
      → (fallback : Text) (body : Async S (Unit {0})) → Keeps Q body
      → FreeOf
      → Restores Q (to_task (submit slot fallback body))
  unfolding submit
  submit-Restores_free errs fallback body h =
      framed-Restores Q (set_submitting slot true) (set_error slot []) _ (errs []) _
        (search (keep_rules, errs, h) depth 12)
