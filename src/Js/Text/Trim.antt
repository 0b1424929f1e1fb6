-- ===== src/Js/Text/Trim.antt =====
-- What `trim` leaves.
use home_stock.Common.{
  ℕ, ◌≡◌, refl, inl, inr, Bool, true, false, ◌||◌, [], ◌∷◌, if◌then◌else◌, Bool-cases,
}
use home_stock.Js.Text.{Text, truthy, is_space, trim_start, trim_end, trim}

-- No blank stands at either end.
abbrev pub StartsPlain : Text → Type 0
StartsPlain [] = Unit {0}
StartsPlain (c ∷ s) = is_space c ≡ false

abbrev pub EndsPlain : Text → Type 0
EndsPlain [] = Unit {0}
EndsPlain (c ∷ []) = is_space c ≡ false
EndsPlain (c ∷ d ∷ s) = EndsPlain (d ∷ s)

abbrev pub IsTrimmed : Text → Type 0
IsTrimmed s = StartsPlain s × EndsPlain s

trim_start-StartsPlain : (s : Text) → StartsPlain (trim_start s)
unfolding trim_start
trim_start-StartsPlain [] = tt
trim_start-StartsPlain (c ∷ s) = elim (Bool-cases (is_space c)) [
  | inl blank ↦ rw blank (trim_start-StartsPlain s)
  | inr plain ↦ rw (plain, if◌then◌else◌) plain
]

EndsPlain-cons : (c : ℕ) (s : Text) → truthy s ≡ true → EndsPlain s → EndsPlain (c ∷ s)
EndsPlain-cons c [] t h = cc
EndsPlain-cons c (d ∷ s) t h = h

truthy-eq-false : (s : Text) → truthy s ≡ false → s ≡ []
truthy-eq-false [] h = refl
truthy-eq-false (c ∷ s) h = cc

or_true : (b : Bool) → (b || true) ≡ true
or_true true = refl
or_true false = refl

trim_end-EndsPlain : (s : Text) → EndsPlain (trim_end s)
unfolding trim_end
trim_end-EndsPlain [] = tt
trim_end-EndsPlain (c ∷ s) = elim (Bool-cases (truthy (trim_end s))) [
  | inl more ↦ rw more (EndsPlain-cons c (trim_end s) more (trim_end-EndsPlain s))
  | inr last ↦ elim (Bool-cases (is_space c)) [
    | inl blank ↦ rw (last, blank) tt
    | inr plain ↦ rw (last, plain, truthy-eq-false (trim_end s) last) plain
  ]
]

StartsPlain-trim_end : (s : Text) → StartsPlain s → StartsPlain (trim_end s)
unfolding trim_end
StartsPlain-trim_end [] h = tt
StartsPlain-trim_end (c ∷ s) h = rw (h, or_true (truthy (trim_end s))) h

-- What `trim` returns has no blank at either end.
pub trim-IsTrimmed : (s : Text) → IsTrimmed (trim s)
unfolding trim
trim-IsTrimmed s = (
  StartsPlain-trim_end (trim_start s) (trim_start-StartsPlain s),
  trim_end-EndsPlain (trim_start s),
)
