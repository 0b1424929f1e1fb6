-- ===== src/Async/Rules.antt =====
-- Rules for what a handler ends in, and for the calls that it makes, whatever the server replies and
-- whatever other handlers do to the state while it waits.
pub mod Ends
pub mod Calls
pub mod Replied
use home_stock.Common.{◌≡◌, refl, Bool, true, false, if◌then◌else◌}
use home_stock.Api.{Call, Reply}
use home_stock.Js.Outcome.{Thrown, Outcome, ok, err}
use home_stock.Async.{
  Task, Async, ret, throw, ◌>>=◌, ◌>>◌, catch, finally, resolve, call, prefix, to_task, start,
  update, call_both, call_three,
}

module _ {S A : Type 0} where
  -- P holds of the final state and outcome.
  pub Ends : (S → Outcome A → Type 0) → Async S A → S → Type 0
  Ends P (ret a) s = P s (ok a)
  Ends P (throw e) s = P s (err e)
  Ends P (Async.set f m) s = Ends P m (f s)
  Ends P (Async.get k) s = Ends P (k s) s
  Ends P (Async.await c k) s = (r : Outcome (Reply c)) (t : S) → Ends P (k r) t
  Ends P (Async.spawn t m) s = Ends P m (prefix t s)

module _ {S : Type 0} where
  unfoldable pub TaskCalls : (Call → Type 0) → Task S → Type 0
  TaskCalls P Task.done = Unit
  TaskCalls P (Task.set f t) = TaskCalls P t
  TaskCalls P (Task.get k) = (s : S) → TaskCalls P (k s)
  TaskCalls P (Task.await c k) = P c × ((r : Outcome (Reply c)) → TaskCalls P (k r))
  TaskCalls P (Task.spawn u t) = TaskCalls P u × TaskCalls P t

module _ {S A : Type 0} where
  -- P holds of every call.
  pub Calls : (Call → Type 0) → Async S A → Type 0
  Calls P (ret a) = Unit
  Calls P (throw e) = Unit
  Calls P (Async.set f m) = Calls P m
  Calls P (Async.get k) = (s : S) → Calls P (k s)
  Calls P (Async.await c k) = P c × ((r : Outcome (Reply c)) → Calls P (k r))
  Calls P (Async.spawn t m) = TaskCalls P t × Calls P m

  -- What must hold where a handler that `catch` guards ends.
  abbrev pub Caught : (S → Outcome A → Type 0) → (Thrown → Async S A) → S → Outcome A → Type 0
  Caught P h s (ok a) = P s (ok a)
  Caught P h s (err e) = Ends P (h e) s
