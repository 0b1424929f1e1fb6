-- ===== src/Async/Pool/Rest/Finally.antt =====
-- A handler whose `finally` brings a property, whatever happens in its `try`.
use home_stock.Common.{◌⊎◌, inl, inr, inr, Bool, true, false, if◌then◌else◌}
use home_stock.Async.{Async, ret, throw, ◌>>=◌, ◌>>◌, finally, update, to_task}
use home_stock.Async.Pool.Keeps.{Keeps, keep_rules, to_task-TaskKeeps}
use home_stock.Async.Pool.Rest.{Brings, Restores, TaskKeeps-Restores}

module _ {S A : Type 0} (Q : S → Type 0) where
  pub finally-Brings :
      (m : Async S A) (g : S → S)
      → Keeps Q m
      → ((s : S) → Q (g s))
      → (s : S) → Brings Q (to_task (finally m g)) s
  unfolding Brings Keeps to_task finally
  finally-Brings (ret a) g h hg s = hg s
  finally-Brings (throw e) g h hg s = hg s
  finally-Brings (Async.set f m) g h hg s = finally-Brings m g h.1 hg (f s)
  finally-Brings (Async.get k) g h hg s = finally-Brings (k s) g (h s) hg s
  finally-Brings (Async.await c k) g h hg s = λ r. finally-Brings (k r) g (h r) hg
  finally-Brings (Async.spawn t m) g h hg s = (inr h.0, finally-Brings m g h.1 hg)

  pub Keeps-Restores : (m : Async S A) → Keeps Q m → Restores Q (to_task m)
  Keeps-Restores m h = TaskKeeps-Restores Q (to_task m) (to_task-TaskKeeps Q m h)

  pub if-Restores :
      (b : Bool) (m n : Async S A)
      → Restores Q (to_task m)
      → Restores Q (to_task n)
      → Restores Q (to_task (if b then m else n))
  if-Restores true m n h k = h
  if-Restores false m n h k = k

module _ {S : Type 0} (Q : S → Type 0) where
  -- What begins and what ends a handler's work does not matter to Q, or the end brings Q.
  abbrev pub Frees : (S → S) → (S → S) → Type 0
  Frees begin end =
      (((s : S) → Q s → Q (begin s)) × ((s : S) → Q s → Q (end s))) ⊎ ((s : S) → Q (end s))

  module _ (begin clear end : S → S) (clears : (s : S) → Q s → Q (clear s))
      (body : Async S (Unit {0})) (h : Keeps Q body) where
    framed-Keeps :
        ((s : S) → Q s → Q (begin s))
        → ((s : S) → Q s → Q (end s))
        → Keeps Q (update begin >> (update clear >> finally body end))
    framed-Keeps begins ends = search (keep_rules, begins, clears, ends, h) depth 12

    pub framed-Restores :
        Frees begin end → Restores Q (to_task (update begin >> (update clear >> finally body end)))
    unfolding Restores Brings to_task ◌>>=◌ update
    framed-Restores (inl (begins, ends)) = Keeps-Restores Q _ (framed-Keeps begins ends)
    framed-Restores (inr brings) = inr λ s. finally-Brings Q body end h brings _
