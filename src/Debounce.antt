-- ===== src/Debounce.antt =====
-- web/src/hooks/useDebounce.ts: the debounced value, and the timer that waits to set it. A timer
-- fires at the first moment at which it is due.
pub mod Laws
pub mod Refine
use home_stock.Common.{
  ℕ, ◌+◌, Option, none, some, Bool, true, false, List, [], ◌∷◌, leb, if◌then◌else◌,
}

pub record Debounce (A : Type 0) : Type 0 where
  pub debounced : A
  -- the value that is to be set, and when
  pub timer : Option (A × ℕ)

module _ {A : Type 0} where
  -- The effect after a render with a new value: the old timer is cleared, and a new one is set.
  unfoldable pub changed : ℕ → A → ℕ → Debounce A → Debounce A
  changed delay value now d = record d { timer = some (value, now + delay) }

  -- `useState(value)`, and the effect of the first render.
  unfoldable pub first_render : ℕ → A → ℕ → Debounce A
  unfolding changed
  first_render delay value now =
      changed delay value now (record { debounced = value; timer = none })

  unfoldable pub fire : ℕ → Option (A × ℕ) → Debounce A → Debounce A
  fire now none d = d
  fire now (some (value, due)) d =
      if leb due now then record { debounced = value; timer = none } else d

  -- It is now: a timer that is due has fired.
  unfoldable pub tick : ℕ → Debounce A → Debounce A
  unfolding fire
  tick now d = fire now d.timer d

  -- Changes one after the other, each with the time that has passed since the one before it.
  unfoldable pub burst : ℕ → ℕ → List (A × ℕ) → Debounce A → Debounce A
  unfolding tick changed
  burst delay now [] d = d
  burst delay now ((value, gap) ∷ rest) d =
      burst delay (now + gap) rest (changed delay value (now + gap) (tick (now + gap) d))
