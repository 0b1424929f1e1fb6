-- ===== src/Async/Rules/Calls.antt =====
-- Rules for the calls of a handler.
use home_stock.Common.{◌≡◌, refl}
use home_stock.Api.{Call, promise_all}
use home_stock.Js.Outcome.{Thrown, Outcome, ok, err}
use home_stock.Async.{
  Task, Async, ret, throw, ◌>>=◌, catch, finally, resolve, call, to_task, start, update, call_both,
  call_three,
}
use home_stock.Async.Rules.{Calls, TaskCalls}

module _ (S : Type 0) {A : Type 0} (P : Call → Type 0) where
  pub ret-Calls : (a : A) → Calls {S = S} P (ret a)
  unfolding Calls
  ret-Calls a = tt

  pub resolve-Calls : (r : Outcome A) → Calls {S = S} P (resolve r)
  unfolding Calls resolve
  resolve-Calls (ok a) = tt
  resolve-Calls (err e) = tt

module _ {S A : Type 0} (P : Call → Type 0) where
  pub finally-Calls : (m : Async S A) (g : S → S) → Calls P m → Calls P (finally m g)
  unfolding Calls finally
  finally-Calls (ret a) g h = tt
  finally-Calls (throw e) g h = tt
  finally-Calls (Async.set f m) g h = finally-Calls m g h
  finally-Calls (Async.get k) g h = λ s. finally-Calls (k s) g (h s)
  finally-Calls (Async.await c k) g h = (h.0, λ r. finally-Calls (k r) g (h.1 r))
  finally-Calls (Async.spawn t m) g h = (h.0, finally-Calls m g h.1)

  pub catch-Calls :
      (m : Async S A) (k : Thrown → Async S A)
      → Calls P m
      → ((e : Thrown) → Calls P (k e))
      → Calls P (catch m k)
  unfolding Calls catch
  catch-Calls (ret a) k h hk = tt
  catch-Calls (throw e) k h hk = hk e
  catch-Calls (Async.set f m) k h hk = catch-Calls m k h hk
  catch-Calls (Async.get g) k h hk = λ s. catch-Calls (g s) k (h s) hk
  catch-Calls (Async.await c g) k h hk = (h.0, λ r. catch-Calls (g r) k (h.1 r) hk)
  catch-Calls (Async.spawn t m) k h hk = (h.0, catch-Calls m k h.1 hk)

  pub to_task-Calls : (m : Async S A) → Calls P m → TaskCalls P (to_task m)
  unfolding Calls TaskCalls to_task
  to_task-Calls (ret a) h = tt
  to_task-Calls (throw e) h = tt
  to_task-Calls (Async.set f m) h = to_task-Calls m h
  to_task-Calls (Async.get k) h = λ s. to_task-Calls (k s) (h s)
  to_task-Calls (Async.await c k) h = (h.0, λ r. to_task-Calls (k r) (h.1 r))
  to_task-Calls (Async.spawn t m) h = (h.0, to_task-Calls m h.1)

pub throw-Calls :
    (S A : Type 0) (P : Call → Type 0) (e : Thrown) → Calls {S = S} {A = A} P (throw e)
unfolding Calls
throw-Calls S A P e = tt

module _ {S A B : Type 0} (P : Call → Type 0) where
  pub >>=-Calls :
      (m : Async S A) (f : A → Async S B)
      → Calls P m
      → ((a : A) → Calls P (f a))
      → Calls P (m >>= f)
  unfolding Calls ◌>>=◌
  >>=-Calls (ret a) f h hf = hf a
  >>=-Calls (throw e) f h hf = tt
  >>=-Calls (Async.set g m) f h hf = >>=-Calls m f h hf
  >>=-Calls (Async.get k) f h hf = λ s. >>=-Calls (k s) f (h s) hf
  >>=-Calls (Async.await c k) f h hf = (h.0, λ r. >>=-Calls (k r) f (h.1 r) hf)
  >>=-Calls (Async.spawn t m) f h hf = (h.0, >>=-Calls m f h.1 hf)

  pub resolve_then-Calls :
      (r : Outcome A) (f : A → Async S B)
      → ((a : A) → r ≡ ok a → Calls P (f a))
      → Calls P (resolve r >>= f)
  unfolding Calls ◌>>=◌ resolve
  resolve_then-Calls (ok a) f h = h a refl
  resolve_then-Calls (err e) f h = tt

module _ {S : Type 0} (P : Call → Type 0) where
  pub update-Calls : (f : S → S) → Calls P (update f)
  unfolding Calls update
  update-Calls f = tt

  pub start-Calls : (m : Async S (Unit {0})) → Calls P m → Calls P (start m)
  unfolding Calls start
  start-Calls m h = (to_task-Calls P m h, tt)

module _ (S : Type 0) (P : Call → Type 0) where
  pub call-Calls : (c : Call) → P c → Calls {S = S} P (call c)
  unfolding Calls call
  call-Calls c h = (h, λ r. resolve-Calls S P r)

  pub call_both-Calls : (a b : Call) → P (promise_all a b) → Calls {S = S} P (call_both a b)
  unfolding call_both
  call_both-Calls a b h = call-Calls (promise_all a b) h

  pub call_three-Calls :
      (a b c : Call) → P (promise_all a (promise_all b c)) → Calls {S = S} P (call_three a b c)
  unfolding call_three
  call_three-Calls a b c h = call-Calls (promise_all a (promise_all b c)) h

pub done-TaskCalls : (S : Type 0) (P : Call → Type 0) → TaskCalls {S = S} P Task.done
unfolding TaskCalls
done-TaskCalls S P = tt

pub ruleset call_rules = (
  ret-Calls, throw-Calls, finally-Calls, catch-Calls, resolve-Calls, >>=-Calls, update-Calls,
  start-Calls, call-Calls, call_both-Calls, call_three-Calls,
)
