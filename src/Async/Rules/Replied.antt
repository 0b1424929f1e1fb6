-- ===== src/Async/Rules/Replied.antt =====
-- What follows the reply to the first call of a handler.
use home_stock.Common.{◌≡◌}
use home_stock.Js.Outcome.{Thrown, Outcome, ok}
use home_stock.Api.{Call, Reply}
use home_stock.Async.{Async, ret, throw, ◌>>=◌, ◌>>◌, catch, finally, update, prefix}
use home_stock.Async.Rules.{Ends}

module _ {S A : Type 0} where
  -- The handler waits for a call. P holds of the call, the state in which the handler waits, the
  -- reply, the state in which it comes, and the state and outcome in which the handler ends.
  pub Replied :
      ((c : Call) → S → Outcome (Reply c) → S → S → Outcome A → Type 0) → Async S A → S → Type 0
  Replied P (ret a) s = ⊥
  Replied P (throw e) s = ⊥
  Replied P (Async.set f m) s = Replied P m (f s)
  Replied P (Async.get k) s = Replied P (k s) s
  Replied P (Async.await c k) s = (r : Outcome (Reply c)) (u : S) → Ends (P c s r u) (k r) u
  Replied P (Async.spawn t m) s = Replied P m (prefix t s)

module _ {S B : Type 0} where
  -- Where the first part does not throw.
  pub then-Ends :
      (P : S → Outcome B → Type 0) (k : Async S B) (m : Async S (Unit {0})) (s : S)
      → Ends (λ t o. o ≡ ok tt) m s
      → ((t : S) → Ends P k t)
      → Ends P (m >> k) s
  unfolding Ends ◌>>=◌
  then-Ends P k (ret a) s h hk = hk s
  then-Ends P k (throw e) s h hk = absurd (cc)
  then-Ends P k (Async.set g m) s h hk = then-Ends P k m (g s) h hk
  then-Ends P k (Async.get f) s h hk = then-Ends P k (f s) s h hk
  then-Ends P k (Async.await c f) s h hk = λ r t. then-Ends P k (f r) t (h r t) hk
  then-Ends P k (Async.spawn t m) s h hk = then-Ends P k m (prefix t s) h hk

-- `try { m } catch (e) { … } finally { … }`, where m does nothing but throw.
pub thrown-Ends :
    {S : Type 0} (P : S → Outcome (Unit {0}) → Type 0) (e : Thrown) (f : Thrown → S → S) (g : S → S)
    (m : Async S (Unit {0})) (s : S)
    → m ≡ throw e
    → P (g (f e s)) (ok tt)
    → Ends P (finally (catch m (λ e. update (f e))) g) s
unfolding Ends finally catch update
thrown-Ends P e f g m s bad h = rw bad h

module _ {S A : Type 0} (P : (c : Call) → S → Outcome (Reply c) → S → S → Outcome A → Type 0) where
  pub update_then-Replied :
      (f : S → S) (m : Async S A) (s : S) → Replied P m (f s) → Replied P (update f >> m) s
  unfolding Replied update ◌>>=◌
  update_then-Replied f m s h = h

  pub await-Replied :
      (c : Call) (k : Outcome (Reply c) → Async S A) (s : S)
      → ((r : Outcome (Reply c)) (u : S) → Ends (P c s r u) (k r) u)
      → Replied P (Async.await c k) s
  unfolding Replied
  await-Replied c k s h = h
