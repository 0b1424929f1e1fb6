-- ===== src/Async/Pool/Schedule.antt =====
-- A component whose waiting handlers go on as a scheduler chooses them, with no event between.
use mathlib.Core.WellFounded.{Acc}
use home_stock.Common.{
  ℕ, zero, suc, ◌<◌, ◌≡◌, ◌≢◌, refl, inl, inr, ◌⊎◌, List, [], ◌∷◌, length, arith,
}
use home_stock.Async.Pool.{Config, answer, Component, reply, Reach, next}
use home_stock.Async.Pool.Drain.{Replies, Answered, Answered-Acc}

nil-cases : {A : Type 0} (xs : List A) → (xs ≡ []) ⊎ (xs ≢ [])
nil-cases [] = inl refl
nil-cases (x ∷ xs) = inr λ e. cc

-- Replies come as a scheduler chooses them, n times.
module _ {S : Type 0} (choose : Config S → ℕ) (replies : Config S → Replies) where
  unfoldable pub after : ℕ → Config S → Config S
  after zero c = c
  after (suc n) c = after n (answer c (choose c) (replies c))

  -- It chooses a handler that waits, as long as there is one.
  abbrev pub Chooses : Type 0
  Chooses = (c : Config S) → c.waiting ≢ [] → choose c < length c.waiting

  after-Acc : Chooses → {c : Config S} → Acc Answered c → (n : ℕ) × ((after n c).waiting ≡ [])
  unfolding after
  after-Acc chooses {c} (Acc.intro _ h) = elim (nil-cases c.waiting) [
    | inl e ↦ (0, e)
    | inr waits ↦
        let (n, e) = after-Acc chooses (
          h (answer c (choose c) (replies c))
            (choose c, replies c, c.state, chooses c waits, refl)) in
        (suc n, e)
  ]

  pub after-drained : Chooses → (c : Config S) → (n : ℕ) × ((after n c).waiting ≡ [])
  after-drained chooses c = after-Acc chooses (Answered-Acc c)

  pub after-Reach :
      {E : Type 0} (component : Component S E) (n : ℕ) {c d : Config S}
      → Reach component c d
      → Reach component c (after n d)
  unfolding after
  after-Reach component zero r = r
  after-Reach component (suc n) {d = d} r =
      after-Reach component n (next r (reply (choose d) (replies d)))

-- The handler that has waited longest goes on.
abbrev pub in_order : {S : Type 0} → Config S → ℕ
in_order c = 0

in_order-lt-length : {A : Type 0} (xs : List A) → xs ≢ [] → 0 < length xs
in_order-lt-length [] h = absurd (h refl)
in_order-lt-length (x ∷ xs) h = omega arith

pub in_order-Chooses : {S : Type 0} (replies : Config S → Replies) → Chooses in_order replies
in_order-Chooses replies c h = in_order-lt-length c.waiting h
