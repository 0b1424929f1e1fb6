-- ===== src/Inventory/Shell.antt =====
-- What the submitting dialogs of web/src/pages/inventory declare alike: the two states
-- `submitting` and `error`, and the frame of `handleSubmit` round its body.
pub mod Laws
pub mod Rest
pub mod Replied
use home_stock.Common.{Bool, true, false, [], Option, none, some}
use home_stock.Js.Text.{Text}
use home_stock.Js.Outcome.{message_or}
use home_stock.Async.{Async, ◌>>=◌, ◌>>◌, catch, finally, update}
use home_stock.Async.Slot.{Slot}

pub record Shell : Type 0 where
  pub submitting : Bool
  pub error : Text

abbrev pub or_blank : Option Text → Text
or_blank none = []
or_blank (some s) = s

module _ {S : Type 0} (slot : Slot S Shell) where
  unfoldable pub set_error : Text → S → S
  set_error m = slot.put λ d. record d { error = m }

  unfoldable pub set_submitting : Bool → S → S
  set_submitting b = slot.put λ d. record d { submitting = b }

  -- From `setSubmitting(true)` to the end of `handleSubmit`: `body` is what stands in the `try`.
  unfoldable pub submit : Text → Async S (Unit {0}) → Async S (Unit {0})
  submit fallback body = do
    update (set_submitting true)
    update (set_error [])
    finally (catch body (λ e. update (set_error (message_or fallback e)))) (set_submitting false)
