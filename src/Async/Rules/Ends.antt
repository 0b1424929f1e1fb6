-- ===== src/Async/Rules/Ends.antt =====
-- Rules for the end of a handler.
use home_stock.Js.Outcome.{Thrown, Outcome, ok, err}
use home_stock.Async.{Async, ret, throw, ◌>>=◌, ◌>>◌, catch, finally, prefix, update}
use home_stock.Async.Rules.{Ends, Caught}

module _ {S A : Type 0} where
  pub ret-Ends : (P : S → Outcome A → Type 0) (a : A) (s : S) → P s (ok a) → Ends P (ret a) s
  unfolding Ends
  ret-Ends P a s h = h

  pub Ends-mono :
      (P Q : S → Outcome A → Type 0)
      → ((s : S) (o : Outcome A) → P s o → Q s o)
      → (m : Async S A) (s : S) → Ends P m s
      → Ends Q m s
  unfolding Ends
  Ends-mono P Q f (ret a) s h = f s (ok a) h
  Ends-mono P Q f (throw e) s h = f s (err e) h
  Ends-mono P Q f (Async.set g m) s h = Ends-mono P Q f m (g s) h
  Ends-mono P Q f (Async.get k) s h = Ends-mono P Q f (k s) s h
  Ends-mono P Q f (Async.await c k) s h = λ r t. Ends-mono P Q f (k r) t (h r t)
  Ends-mono P Q f (Async.spawn t m) s h = Ends-mono P Q f m (prefix t s) h

  pub finally-Ends :
      (P : S → Outcome A → Type 0) (g : S → S) (m : Async S A) (s : S)
      → Ends (λ t o. P (g t) o) m s
      → Ends P (finally m g) s
  unfolding Ends finally
  finally-Ends P g (ret a) s h = h
  finally-Ends P g (throw e) s h = h
  finally-Ends P g (Async.set f m) s h = finally-Ends P g m (f s) h
  finally-Ends P g (Async.get k) s h = finally-Ends P g (k s) s h
  finally-Ends P g (Async.await c k) s h = λ r t. finally-Ends P g (k r) t (h r t)
  finally-Ends P g (Async.spawn t m) s h = finally-Ends P g m (prefix t s) h

  pub catch-Ends :
      (P : S → Outcome A → Type 0) (k : Thrown → Async S A) (m : Async S A) (s : S)
      → Ends (Caught P k) m s
      → Ends P (catch m k) s
  unfolding Ends catch
  catch-Ends P k (ret a) s h = h
  catch-Ends P k (throw e) s h = h
  catch-Ends P k (Async.set f m) s h = catch-Ends P k m (f s) h
  catch-Ends P k (Async.get g) s h = catch-Ends P k (g s) s h
  catch-Ends P k (Async.await c g) s h = λ r t. catch-Ends P k (g r) t (h r t)
  catch-Ends P k (Async.spawn t m) s h = catch-Ends P k m (prefix t s) h

module _ {S A B : Type 0} where
  -- Where nothing is known of the first part but that it ends.
  pub >>=-Ends :
      (P : S → Outcome B → Type 0) (f : A → Async S B) (m : Async S A) (s : S)
      → ((a : A) (t : S) → Ends P (f a) t)
      → ((e : Thrown) (t : S) → P t (err e))
      → Ends P (m >>= f) s
  unfolding Ends ◌>>=◌
  >>=-Ends P f (ret a) s hf he = hf a s
  >>=-Ends P f (throw e) s hf he = he e s
  >>=-Ends P f (Async.set g m) s hf he = >>=-Ends P f m (g s) hf he
  >>=-Ends P f (Async.get k) s hf he = >>=-Ends P f (k s) s hf he
  >>=-Ends P f (Async.await c k) s hf he = λ r t. >>=-Ends P f (k r) t hf he
  >>=-Ends P f (Async.spawn t m) s hf he = >>=-Ends P f m (prefix t s) hf he

module _ {S : Type 0} where
  pub update-Ends :
      (P : S → Outcome (Unit {0}) → Type 0) (f : S → S) (s : S)
      → P (f s) (ok tt)
      → Ends P (update f) s
  unfolding Ends update
  update-Ends P f s h = h

module _ {S A : Type 0} where
  pub update_then-Ends :
      (P : S → Outcome A → Type 0) (f : S → S) (m : Async S A) (s : S)
      → Ends P m (f s)
      → Ends P (update f >> m) s
  unfolding Ends update ◌>>=◌
  update_then-Ends P f m s h = h

-- `try { m } catch (e) { … } finally { … }`, in the form in which the components write it.
pub guarded-Ends :
    {S : Type 0} (P : S → Outcome (Unit {0}) → Type 0) (m : Async S (Unit {0})) (f : Thrown → S → S)
    (g : S → S) (s : S)
    → Ends (Caught (λ t o. P (g t) o) (λ e. update (f e))) m s
    → Ends P (finally (catch m (λ e. update (f e))) g) s
guarded-Ends P m f g s h = finally-Ends P g _ s (catch-Ends _ _ m s h)

module _ {S A : Type 0} where
  pub any-Ends :
      (P : S → Outcome A → Type 0) (m : Async S A) (s : S)
      → ((t : S) (o : Outcome A) → P t o)
      → Ends P m s
  unfolding Ends
  any-Ends P (ret a) s h = h s (ok a)
  any-Ends P (throw e) s h = h s (err e)
  any-Ends P (Async.set f m) s h = any-Ends P m (f s) h
  any-Ends P (Async.get k) s h = any-Ends P (k s) s h
  any-Ends P (Async.await c k) s h = λ r t. any-Ends P (k r) t h
  any-Ends P (Async.spawn t m) s h = any-Ends P m (prefix t s) h

-- Whatever the `try` does, the handler ends normally, in a state that the `finally` has made.
pub finished-Ends :
    {S : Type 0} (P : S → Outcome (Unit {0}) → Type 0) (m : Async S (Unit {0})) (f : Thrown → S → S)
    (g : S → S) (s : S)
    → ((t : S) → P (g t) (ok tt))
    → Ends P (finally (catch m (λ e. update (f e))) g) s
unfolding Ends update
finished-Ends P m f g s h = guarded-Ends P m f g s (any-Ends _ m s λ t o. finished t o)
  where
    finished : (t : _) (o : Outcome (Unit {0})) → Caught (λ t o. P (g t) o) (λ e. update (f e)) t o
    finished t (ok u) = h t
    finished t (err e) = h (f e t)
