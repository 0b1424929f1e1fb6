-- ===== src/Async/Pool/Waiting.antt =====
-- The tasks that wait, and the one that is picked out of them.
use mathlib.Core.Option.{some-injective}
use home_stock.Common.{
  ℕ, zero, suc, some, inl, inr, Option-cases, arith, ◌≡◌, subst, List, [], ◌∷◌, All,
}
use home_stock.Async.{Task}
use home_stock.Async.Pool.{pick}

module _ {S : Type 0} (P : Task S → Type 0) where
  -- What holds of all tasks holds of the one that is picked and of those that are left.
  pub pick-All :
      (i : ℕ) (ts : List (Task S)) (t : Task S) (us : List (Task S))
      → pick i ts ≡ some (t, us)
      → All P ts
      → P t × All P us
  unfolding pick
  pick-All i [] t us e a = cc
  pick-All zero (u ∷ ts) t us e a =
      subst (λ (p : Task S × List (Task S)). P p.0 × All P p.1)
        (some-injective {A = Task S × List (Task S)} (u, ts) (t, us) e) a
  pick-All (suc i) (u ∷ ts) t us e a = elim (Option-cases (pick i ts)) [
    | inl missing ↦ absurd (ground arith)
    | inr ((v, vs), found) ↦
        let (kept, rest) = pick-All i ts v vs found a.1 in
        let e' : some (v, u ∷ vs) ≡ some (t, us) = rw (found, pick) at e in
        subst (λ (p : Task S × List (Task S)). P p.0 × All P p.1)
          (some-injective {A = Task S × List (Task S)} (v, u ∷ vs) (t, us) e') (kept, (a.0, rest))
  ]
