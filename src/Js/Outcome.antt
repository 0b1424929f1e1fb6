-- ===== src/Js/Outcome.antt =====
-- Values and thrown errors.
use home_stock.Common.{◌≡◌, refl}
use home_stock.Js.Text.{Text}

-- `error m` is an `Error` with its message; `other s` any other thrown value, with `String(value)`.
pub data Thrown : Type 0 where
  error : Text → Thrown
  other : Text → Thrown

-- `err instanceof Error ? err.message : fallback`
abbrev pub message_or : Text → Thrown → Text
message_or fallback (error m) = m
message_or fallback (other s) = fallback

-- `err instanceof Error ? err.message : String(err)`
abbrev pub message_of : Thrown → Text
message_of (error m) = m
message_of (other s) = s

pub data Outcome (A : Type 0) : Type 0 where
  ok : A → Outcome A
  err : Thrown → Outcome A

module _ {A B : Type 0} where
  infixl 5 ◌>>=◌
  abbrev pub ◌>>=◌ : Outcome A → (A → Outcome B) → Outcome B
  ok a >>= f = f a
  err e >>= f = err e

  -- Inversion of a bind that has succeeded.
  pub >>=-eq-ok :
      (m : Outcome A) (f : A → Outcome B) (b : B)
      → (m >>= f) ≡ ok b
      → (a : A) × (m ≡ ok a) × (f a ≡ ok b)
  >>=-eq-ok (ok a) f b h = (a, refl, h)
  >>=-eq-ok (err e) f b h = cc
