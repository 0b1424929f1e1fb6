-- ===== src/Js/Number.antt =====
-- JavaScript numbers. Every finite double is a whole multiple of 2^-1074, the least positive one:
-- `fin m` is m * 2^-1074. Comparisons are exact; +0 and -0, which no test of the client tells
-- apart, are one value.
use home_stock.Common.{
  ℕ, ◌*◌, ◌^◌, Bool, true, false, if◌then◌else◌, ℤ, pos, ltb_ℤ, leb_ℤ, eq_ℤ, ◌+ℤ◌,
}

pub data Number : Type 0 where
  nan infinity neg_infinity : Number
  fin : ℤ → Number

-- `a < b`
abbrev pub lt_number : Number → Number → Bool
lt_number (fin a) (fin b) = ltb_ℤ a b
lt_number (fin a) infinity = true
lt_number neg_infinity (fin b) = true
lt_number neg_infinity infinity = true
lt_number _ _ = false

-- `a <= b`
abbrev pub le_number : Number → Number → Bool
le_number (fin a) (fin b) = leb_ℤ a b
le_number (fin a) infinity = true
le_number neg_infinity (fin b) = true
le_number neg_infinity infinity = true
le_number neg_infinity neg_infinity = true
le_number infinity infinity = true
le_number _ _ = false

-- `a === b`
abbrev pub eq_number : Number → Number → Bool
eq_number (fin a) (fin b) = eq_ℤ a b
eq_number infinity infinity = true
eq_number neg_infinity neg_infinity = true
eq_number _ _ = false

abbrev pub zero_number : Number
zero_number = fin (pos 0)

-- The number n.
unfoldable pub whole : ℕ → Number
whole n = fin (pos (n * 2 ^ 1074))

-- `Number.isFinite(a)`
abbrev pub is_finite : Number → Bool
is_finite (fin a) = true
is_finite _ = false

-- `a || b`: NaN and 0 are false.
abbrev pub or_number : Number → Number → Number
or_number nan b = b
or_number (fin a) b = if eq_ℤ a (pos 0) then b else fin a
or_number a b = a

-- `a + b`; the exact sum of two finite numbers goes through the rounding of the machine.
unfoldable pub add_number : (ℤ → Number) → Number → Number → Number
add_number round (fin a) (fin b) = round (a +ℤ b)
add_number round infinity neg_infinity = nan
add_number round neg_infinity infinity = nan
add_number round nan b = nan
add_number round a nan = nan
add_number round infinity b = infinity
add_number round a infinity = infinity
add_number round neg_infinity b = neg_infinity
add_number round a neg_infinity = neg_infinity
