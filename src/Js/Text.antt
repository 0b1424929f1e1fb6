-- ===== src/Js/Text.antt =====
-- JavaScript strings as the language defines them: sequences of UTF-16 code units.
pub mod Trim
use Prim.Native.Char.{code}
use home_stock.Common.{
  ℕ, String, ◌≡◌, refl, ◌↔◌, Option, none, some, Bool, true, false, ◌&&◌, ◌||◌, not, List, [], ◌∷◌,
  ◌++◌, arith, ltb, leb, ◌==◌, if◌then◌else◌, take,
}

abbrev pub Text : Type 0
Text = List ℕ

-- A literal of the source; every one lies in the basic plane, one unit to a character.
abbrev pub lit : String → Text
lit String.[] = []
lit (String.◌∷◌ c s) = code c ∷ lit s

-- `Boolean(s)`: every string but '' is true.
abbrev pub truthy : Text → Bool
truthy [] = false
truthy (c ∷ s) = true

-- `s || t`
abbrev pub or_text : Text → Text → Text
or_text s t = if truthy s then s else t

-- `s || undefined`
abbrev pub or_none : Text → Option Text
or_none s = if truthy s then some s else none

-- A text that is left out or not blank.
abbrev pub IsGiven : Option Text → Type 0
IsGiven none = Unit {0}
IsGiven (some s) = truthy s ≡ true

pub or_none-IsGiven : (s : Text) → IsGiven (or_none s)
or_none-IsGiven [] = tt
or_none-IsGiven (c ∷ s) = refl

-- `s === t`
abbrev pub eq_text : Text → Text → Bool
eq_text [] [] = true
eq_text [] (d ∷ t) = false
eq_text (c ∷ s) [] = false
eq_text (c ∷ s) (d ∷ t) = c == d && eq_text s t

pub eq_text_iff : (s t : Text) → (eq_text s t ≡ true) ↔ (s ≡ t)
eq_text_iff [] [] = ground arith
eq_text_iff [] (d ∷ t) = ground arith
eq_text_iff (c ∷ s) [] = ground arith
eq_text_iff (c ∷ s) (d ∷ t) = ground (arith, eq_text_iff s t)

pub eq_text_refl : (s : Text) → eq_text s s ≡ true
eq_text_refl s = (eq_text_iff s s).1 refl

-- White space and line terminators, which `trim` removes.
unfoldable pub is_space : ℕ → Bool
is_space c =
    leb 9 c && leb c 13
    || c == 0x20
    || c == 0xa0
    || c == 0x1680
    || leb 0x2000 c && leb c 0x200a
    || c == 0x2028
    || c == 0x2029
    || c == 0x202f
    || c == 0x205f
    || c == 0x3000
    || c == 0xfeff

unfoldable pub trim_start : Text → Text
trim_start [] = []
trim_start (c ∷ s) = if is_space c then trim_start s else c ∷ s

unfoldable pub trim_end : Text → Text
trim_end [] = []
trim_end (c ∷ s) = let rest = trim_end s in if truthy rest || not (is_space c) then c ∷ rest else []

-- `s.trim()`
unfoldable pub trim : Text → Text
unfolding trim_start trim_end is_space
trim s = trim_end (trim_start s)

-- `s.includes(t)`
abbrev pub starts_with : Text → Text → Bool
starts_with s [] = true
starts_with [] (d ∷ t) = false
starts_with (c ∷ s) (d ∷ t) = c == d && starts_with s t

unfoldable pub includes : Text → Text → Bool
includes [] t = starts_with [] t
includes (c ∷ s) t = starts_with (c ∷ s) t || includes s t
