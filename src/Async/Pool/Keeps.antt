-- ===== src/Async/Pool/Keeps.antt =====
-- Invariants of a component under every interleaving of its handlers.
use home_stock.Common.{
  inl, inr, Option-cases, Bool, true, false, if◌then◌else◌, List, All, All-append,
}
use home_stock.Js.Outcome.{Thrown, Outcome, ok, err}
use home_stock.Api.{Call, Reply, promise_all}
use home_stock.Async.{
  Task, Async, ret, throw, ◌>>=◌, catch, finally, resolve, call, to_task, start, update, call_both,
  call_three,
}
use home_stock.Async.Pool.Waiting.{pick-All}
use home_stock.Async.Pool.{
  Config, settle, pick, resume, answer, Component, fire, Step, event, reply, Reach, here, next,
}

module _ {S : Type 0} (I : S → Type 0) where
  -- Every update of the task keeps I.
  unfoldable pub TaskKeeps : Task S → Type 0
  TaskKeeps Task.done = Unit
  TaskKeeps (Task.set f t) = ((s : S) → I s → I (f s)) × TaskKeeps t
  TaskKeeps (Task.get k) = (s : S) → TaskKeeps (k s)
  TaskKeeps (Task.await c k) = (r : Outcome (Reply c)) → TaskKeeps (k r)
  TaskKeeps (Task.spawn u t) = TaskKeeps u × TaskKeeps t

  unfoldable pub Keeps : {A : Type 0} → Async S A → Type 0
  Keeps (ret a) = Unit
  Keeps (throw e) = Unit
  Keeps (Async.set f m) = ((s : S) → I s → I (f s)) × Keeps m
  Keeps (Async.get k) = (s : S) → Keeps (k s)
  Keeps (Async.await c k) = (r : Outcome (Reply c)) → Keeps (k r)
  Keeps (Async.spawn t m) = TaskKeeps t × Keeps m

pub done-TaskKeeps : {S : Type 0} (I : S → Type 0) → TaskKeeps I Task.done
unfolding TaskKeeps
done-TaskKeeps I = tt

module _ {S A : Type 0} (I : S → Type 0) where
  pub ret-Keeps : (a : A) → Keeps I (ret a)
  unfolding Keeps
  ret-Keeps a = tt

  pub if-Keeps : (b : Bool) (m n : Async S A) → Keeps I m → Keeps I n → Keeps I (if b then m else n)
  if-Keeps true m n h k = h
  if-Keeps false m n h k = k

  pub resolve-Keeps : (r : Outcome A) → Keeps I (resolve r)
  unfolding Keeps resolve
  resolve-Keeps (ok a) = tt
  resolve-Keeps (err e) = tt

  pub finally-Keeps :
      (m : Async S A) (g : S → S) → Keeps I m → ((s : S) → I s → I (g s)) → Keeps I (finally m g)
  unfolding Keeps finally
  finally-Keeps (ret a) g h hg = (hg, tt)
  finally-Keeps (throw e) g h hg = (hg, tt)
  finally-Keeps (Async.set f m) g h hg = (h.0, finally-Keeps m g h.1 hg)
  finally-Keeps (Async.get k) g h hg = λ s. finally-Keeps (k s) g (h s) hg
  finally-Keeps (Async.await c k) g h hg = λ r. finally-Keeps (k r) g (h r) hg
  finally-Keeps (Async.spawn t m) g h hg = (h.0, finally-Keeps m g h.1 hg)

  pub catch-Keeps :
      (m : Async S A) (k : Thrown → Async S A)
      → Keeps I m
      → ((e : Thrown) → Keeps I (k e))
      → Keeps I (catch m k)
  unfolding Keeps catch
  catch-Keeps (ret a) k h hk = tt
  catch-Keeps (throw e) k h hk = hk e
  catch-Keeps (Async.set g m) k h hk = (h.0, catch-Keeps m k h.1 hk)
  catch-Keeps (Async.get g) k h hk = λ s. catch-Keeps (g s) k (h s) hk
  catch-Keeps (Async.await c g) k h hk = λ r. catch-Keeps (g r) k (h r) hk
  catch-Keeps (Async.spawn t m) k h hk = (h.0, catch-Keeps m k h.1 hk)

  pub to_task-TaskKeeps : (m : Async S A) → Keeps I m → TaskKeeps I (to_task m)
  unfolding Keeps TaskKeeps to_task
  to_task-TaskKeeps (ret a) h = tt
  to_task-TaskKeeps (throw e) h = tt
  to_task-TaskKeeps (Async.set f m) h = (h.0, to_task-TaskKeeps m h.1)
  to_task-TaskKeeps (Async.get k) h = λ s. to_task-TaskKeeps (k s) (h s)
  to_task-TaskKeeps (Async.await c k) h = λ r. to_task-TaskKeeps (k r) (h r)
  to_task-TaskKeeps (Async.spawn t m) h = (h.0, to_task-TaskKeeps m h.1)

module _ {S A B : Type 0} (I : S → Type 0) where
  pub >>=-Keeps :
      (m : Async S A) (f : A → Async S B)
      → Keeps I m
      → ((a : A) → Keeps I (f a))
      → Keeps I (m >>= f)
  unfolding Keeps ◌>>=◌
  >>=-Keeps (ret a) f h hf = hf a
  >>=-Keeps (throw e) f h hf = tt
  >>=-Keeps (Async.set g m) f h hf = (h.0, >>=-Keeps m f h.1 hf)
  >>=-Keeps (Async.get k) f h hf = λ s. >>=-Keeps (k s) f (h s) hf
  >>=-Keeps (Async.await c k) f h hf = λ r. >>=-Keeps (k r) f (h r) hf
  >>=-Keeps (Async.spawn t m) f h hf = (h.0, >>=-Keeps m f h.1 hf)

module _ {S : Type 0} (I : S → Type 0) where
  pub update-Keeps : (f : S → S) → ((s : S) → I s → I (f s)) → Keeps I (update f)
  unfolding Keeps update
  update-Keeps f h = (h, tt)

  pub start-Keeps : (m : Async S (Unit {0})) → Keeps I m → Keeps I (start m)
  unfolding Keeps start
  start-Keeps m h = (to_task-TaskKeeps I m h, tt)

  pub call-Keeps : (c : Call) → Keeps I (call c)
  unfolding Keeps call
  call-Keeps c = λ r. resolve-Keeps I r

  pub call_both-Keeps : (a b : Call) → Keeps I (call_both a b)
  unfolding call_both
  call_both-Keeps a b = call-Keeps (promise_all a b)

  pub call_three-Keeps : (a b c : Call) → Keeps I (call_three a b c)
  unfolding call_three
  call_three-Keeps a b c = call-Keeps (promise_all a (promise_all b c))

pub ruleset keep_rules = (
  ret-Keeps, if-Keeps, resolve-Keeps, finally-Keeps, catch-Keeps, to_task-TaskKeeps, >>=-Keeps,
  update-Keeps, start-Keeps, call-Keeps, call_both-Keeps, call_three-Keeps,
)

module _ {S : Type 0} (I : S → Type 0) where
  -- The state satisfies I, and so do the states that the waiting handlers will make of such states.
  pub record IsKept (c : Config S) : Type 0 where
    pub holds : I c.state
    pub tasks : All (TaskKeeps I) c.waiting

  resume-TaskKeeps :
      (replies : (c : Call) → Outcome (Reply c)) (t : Task S)
      → TaskKeeps I t
      → TaskKeeps I (resume replies t)
  unfolding resume TaskKeeps
  resume-TaskKeeps replies (Task.await c k) h = h (replies c)
  resume-TaskKeeps replies _ h = h

  settle-IsKept :
      (t : Task S) (s : S) (ws : List (Task S))
      → TaskKeeps I t
      → I s
      → All (TaskKeeps I) ws
      → IsKept (settle t s ws)
  unfolding settle TaskKeeps
  settle-IsKept Task.done s ws h i a = record { holds = i; tasks = a }
  settle-IsKept (Task.set f t) s ws h i a = settle-IsKept t (f s) ws h.1 (h.0 s i) a
  settle-IsKept (Task.get k) s ws h i a = settle-IsKept (k s) s ws (h s) i a
  settle-IsKept (Task.await c k) s ws h i a = record {
    holds = i;
    tasks = All-append (TaskKeeps I) ws _ a (h, tt);
  }
  settle-IsKept (Task.spawn u t) s ws h i a =
      let first = settle-IsKept u s ws h.0 i a in settle-IsKept t _ _ h.1 first.holds first.tasks

  module _ {E : Type 0} (component : Component S E)
      (reacts : (s : S) (e : E)
        → component.Offered s e
        → I s
        → I ((component.react s e).change s) × TaskKeeps I (component.react s e).task) where
    Step-IsKept : {c d : Config S} → IsKept c → Step component c d → IsKept d
    unfolding fire answer
    Step-IsKept {c} h (event e offered) =
        let (now, later) = reacts c.state e offered h.holds in
        settle-IsKept _ _ c.waiting later now h.tasks
    Step-IsKept {c} h (reply i replies) = elim (Option-cases (pick i c.waiting)) [
      | inl missing ↦ rw (missing, answer) h
      | inr ((t, ts), found) ↦
          let (task, rest) = pick-All (TaskKeeps I) i c.waiting t ts found h.tasks in
          rw (found, answer)
            (settle-IsKept _ c.state ts (resume-TaskKeeps replies t task) h.holds rest)
    ]

    -- An invariant that the offered events and their handlers keep holds in every reachable state.
    pub Reach-IsKept : {c d : Config S} → IsKept c → Reach component c d → IsKept d
    Reach-IsKept h here = h
    Reach-IsKept h (next r st) = Step-IsKept (Reach-IsKept h r) st
