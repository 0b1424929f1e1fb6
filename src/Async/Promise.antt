-- ===== src/Async/Promise.antt =====
-- `Promise.all`, which settles when all of its calls have been answered, or when the first of them
-- fails.
use Prim.Native.Nat.{max}
use home_stock.Common.{
  ℕ, ◌<◌, ◌≡◌, refl, ap, ◌⊎◌, inl, inr, leb, ◌∙◌, true, false, arith, if◌then◌else◌, Bool-cases,
}
use home_stock.Js.Outcome.{Thrown, Outcome, ok, err}
use home_stock.Api.{Call, Reply, promise_all}

-- What a call comes to, and when.
pub record Arrival (A : Type 0) : Type 0 where
  pub outcome : Outcome A
  pub at : ℕ

module _ {A B : Type 0} where
  unfoldable pub combined : Outcome A → ℕ → Outcome B → ℕ → Arrival (A × B)
  combined (ok a) t (ok b) u = record { outcome = ok (a, b); at = max t u }
  combined (ok a) t (err f) u = record { outcome = err f; at = u }
  combined (err e) t (ok b) u = record { outcome = err e; at = t }
  combined (err e) t (err f) u =
      if leb t u then record { outcome = err e; at = t } else record { outcome = err f; at = u }

  abbrev pub both_at : Arrival A → Arrival B → Arrival (A × B)
  both_at x y = combined x.outcome x.at y.outcome y.at

-- When the calls come to what they come to, `Promise.all` of some of them comes to this.
unfoldable pub arrive : ((c : Call) → Arrival (Reply c)) → (c : Call) → Arrival (Reply c)
unfolding combined
arrive arrivals (promise_all a b) = both_at (arrive arrivals a) (arrive arrivals b)
arrive arrivals c = arrivals c

abbrev pub settled : ((c : Call) → Arrival (Reply c)) → (c : Call) → Outcome (Reply c)
settled arrivals c = (arrive arrivals c).outcome

-- It does not fail, or not before or at this time.
abbrev pub FailsLater : {A : Type 0} → ℕ → Arrival A → Type 0
FailsLater t x = (f : Thrown) → x.outcome ≡ err f → t < x.at

abbrev pub FailsWith : {A : Type 0} → Arrival A → Thrown → Type 0
FailsWith x e = x.outcome ≡ err e

-- All three succeed with these values, or this is the error of the one that fails first in time.
module _ {A B C : Type 0} where
  abbrev pub IsSettled : Arrival A → Arrival B → Arrival C → Outcome (A × (B × C)) → Type 0
  IsSettled x y z (ok (a, (b, c))) = (x.outcome ≡ ok a) × (y.outcome ≡ ok b) × (z.outcome ≡ ok c)
  IsSettled x y z (err e) =
      (FailsWith x e × FailsLater x.at y × FailsLater x.at z)
      ⊎ ((FailsWith y e × FailsLater y.at x × FailsLater y.at z)
          ⊎ (FailsWith z e × FailsLater z.at x × FailsLater z.at y))

module _ {A B : Type 0} where
  combined-left :
      (o : Outcome A) (t : ℕ) (p : Outcome B) (u : ℕ) (e : Thrown)
      → o ≡ err e
      → ((f : Thrown) → p ≡ err f → t < u)
      → combined o t p u ≡ record { outcome = err e; at = t }
  unfolding combined
  combined-left (ok a) t p u e h later = cc
  combined-left (err x) t (ok b) u e h later = ap (λ (q : Outcome A). combined q t (ok b) u) h
  combined-left (err x) t (err f) u e h later =
      let early : leb t u ≡ true = ground (arith, later f refl) in
      ap (λ (q : Outcome A). combined q t (err f) u) h ∙ rw early refl

  combined-right :
      (o : Outcome A) (t : ℕ) (p : Outcome B) (u : ℕ) (e : Thrown)
      → p ≡ err e
      → ((f : Thrown) → o ≡ err f → u < t)
      → combined o t p u ≡ record { outcome = err e; at = u }
  unfolding combined
  combined-right o t (ok b) u e h later = cc
  combined-right (ok a) t (err x) u e h later = ap (λ (q : Outcome B). combined (ok a) t q u) h
  combined-right (err f) t (err x) u e h later =
      let late : leb t u ≡ false = ground (arith, later f refl) in
      ap (λ (q : Outcome B). combined (err f) t q u) h ∙ rw late refl

  combined-FailsLater :
      (v : ℕ) (o : Outcome A) (t : ℕ) (p : Outcome B) (u : ℕ)
      → ((f : Thrown) → o ≡ err f → v < t)
      → ((f : Thrown) → p ≡ err f → v < u)
      → FailsLater v (combined o t p u)
  unfolding combined
  combined-FailsLater v (ok a) t (ok b) u h k = λ f e. cc
  combined-FailsLater v (ok a) t (err x) u h k = λ f e. k x refl
  combined-FailsLater v (err x) t (ok b) u h k = λ f e. h x refl
  combined-FailsLater v (err x) t (err y) u h k = λ f e. elim (Bool-cases (leb t u)) [
    | inl early ↦ rw early (h x refl)
    | inr late ↦ rw late (k y refl)
  ]

module _ {A B C : Type 0} (x : Arrival A) (y : Arrival B) (z : Arrival C) where
  pub IsSettled-outcome :
      (o : Outcome (A × (B × C))) → IsSettled x y z o → (both_at x (both_at y z)).outcome ≡ o
  unfolding combined
  IsSettled-outcome (ok (a, (b, c))) (p, q, r) = rw (p, q, r) refl
  IsSettled-outcome (err e) (inl (fails, later_y, later_z)) =
      ap (λ w. w.outcome)
        (combined-left x.outcome x.at _ _ e fails
          (combined-FailsLater x.at y.outcome y.at z.outcome z.at later_y later_z))
  IsSettled-outcome (err e) (inr (inl (fails, later_x, later_z))) =
      let e' = combined-left y.outcome y.at z.outcome z.at e fails later_z in
      ap (λ w. (both_at x w).outcome) e'
      ∙ ap (λ w. w.outcome) (combined-right x.outcome x.at (err e) y.at e refl later_x)
  IsSettled-outcome (err e) (inr (inr (fails, later_x, later_y))) =
      let e' = combined-right y.outcome y.at z.outcome z.at e fails later_y in
      ap (λ w. (both_at x w).outcome) e'
      ∙ ap (λ w. w.outcome) (combined-right x.outcome x.at (err e) z.at e refl later_x)
