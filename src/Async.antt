-- ===== src/Async.antt =====
-- `async` functions of the components. A handler is a program that changes the state of its
-- component, waits for calls of the server, starts other handlers without waiting for them, and
-- ends with a value or a thrown error. What happens at a wait, a reply and changes of the state by
-- other handlers, is left to its reader.
pub mod Rules
pub mod Slot
pub mod Pool
pub mod Promise
use home_stock.Js.Outcome.{Thrown, Outcome, ok, err}
use home_stock.Api.{Call, Reply, promise_all}

-- A handler that nobody waits for.
pub data Task (S : Type 0) : Type 0 where
  done : Task S
  set : (S → S) → Task S → Task S
  get : (S → Task S) → Task S
  await : (c : Call) → (Outcome (Reply c) → Task S) → Task S
  spawn : Task S → Task S → Task S

pub data Async (S A : Type 0) : Type 0 where
  ret : A → Async S A
  throw : Thrown → Async S A
  -- a state update, `setX(…)` with a value or a function
  set : (S → S) → Async S A → Async S A
  -- a read of the current state, for what the closure does not capture
  get : (S → Async S A) → Async S A
  -- `await` of a call
  await : (c : Call) → (Outcome (Reply c) → Async S A) → Async S A
  -- `void f()`
  spawn : Task S → Async S A → Async S A

module _ {S A B : Type 0} where
  infixl 5 ◌>>=◌
  unfoldable pub ◌>>=◌ : Async S A → (A → Async S B) → Async S B
  ret a >>= f = f a
  throw e >>= f = throw e
  set g m >>= f = set g (m >>= f)
  get k >>= f = get (λ s. k s >>= f)
  await c k >>= f = await c (λ r. k r >>= f)
  spawn t m >>= f = spawn t (m >>= f)

module _ {S B : Type 0} where
  infixl 5 ◌>>◌
  abbrev pub ◌>>◌ : Async S (Unit {0}) → Async S B → Async S B
  m >> k = m >>= λ _. k

module _ {S A : Type 0} where
  -- `try { m } catch (e) { h(e) }`
  unfoldable pub catch : Async S A → (Thrown → Async S A) → Async S A
  catch (ret a) h = ret a
  catch (throw e) h = h e
  catch (set g m) h = set g (catch m h)
  catch (get k) h = get (λ s. catch (k s) h)
  catch (await c k) h = await c (λ r. catch (k r) h)
  catch (spawn t m) h = spawn t (catch m h)

  -- `try { m } finally { setX(…) }`
  unfoldable pub finally : Async S A → (S → S) → Async S A
  finally (ret a) g = set g (ret a)
  finally (throw e) g = set g (throw e)
  finally (set f m) g = set f (finally m g)
  finally (get k) g = get (λ s. finally (k s) g)
  finally (await c k) g = await c (λ r. finally (k r) g)
  finally (spawn t m) g = spawn t (finally m g)

  unfoldable pub to_task : Async S A → Task S
  to_task (ret a) = done
  to_task (throw e) = done
  to_task (set g m) = Task.set g (to_task m)
  to_task (get k) = Task.get (λ s. to_task (k s))
  to_task (await c k) = Task.await c (λ r. to_task (k r))
  to_task (spawn t m) = Task.spawn t (to_task m)

module _ {S : Type 0} where
  unfoldable pub update : (S → S) → Async S (Unit {0})
  update f = Async.set f (ret tt)

  -- `void m`
  unfoldable pub start : Async S (Unit {0}) → Async S (Unit {0})
  unfolding to_task
  start m = Async.spawn (to_task m) (ret tt)

  -- What a task does before it first waits, and what is left of it then.
  unfoldable pub prefix : Task S → S → S
  prefix done s = s
  prefix (Task.set f t) s = prefix t (f s)
  prefix (Task.get k) s = prefix (k s) s
  prefix (Task.await c k) s = s
  prefix (Task.spawn u t) s = prefix t (prefix u s)

  unfoldable pub resolve : {A : Type 0} → Outcome A → Async S A
  resolve (ok a) = ret a
  resolve (err e) = throw e

  -- `await c`
  unfoldable pub call : (c : Call) → Async S (Reply c)
  unfolding resolve
  call c = Async.await c resolve

module _ {S : Type 0} where
  -- `await Promise.all([a, b])`
  unfoldable pub call_both : (a b : Call) → Async S (Reply a × Reply b)
  unfolding call
  call_both a b = call (promise_all a b)

  -- `await Promise.all([a, b, c])`
  unfoldable pub call_three : (a b c : Call) → Async S (Reply a × (Reply b × Reply c))
  unfolding call
  call_three a b c = call (promise_all a (promise_all b c))
