-- ===== src/Python/Number.antt =====
-- `int`, `float` and `datetime`. A finite float is a whole number of units of 2 ^ -1074, the least
-- positive float, so comparisons of floats are exact. A time is an instant and an optional zone.
use proofops_memoryguard.Base.{
  ℕ, suc, ◌+◌, ◌-◌, ◌*◌, ◌^◌, Bool, true, false, Option, none, some, leb, eqb, not,
}

-- `negsuc n` is -(n + 1).
pub data ℤ : Type 0 where
  pos : ℕ → ℤ
  negsuc : ℕ → ℤ

abbrev pub pos_part : ℤ → ℕ
pos_part (pos n) = n
pos_part (negsuc n) = 0

abbrev pub neg_part : ℤ → ℕ
neg_part (pos n) = 0
neg_part (negsuc n) = suc n

abbrev pub leb_ℤ : ℤ → ℤ → Bool
leb_ℤ a b = leb (pos_part a + neg_part b) (pos_part b + neg_part a)

abbrev pub eqb_ℤ : ℤ → ℤ → Bool
eqb_ℤ a b = eqb (pos_part a + neg_part b) (pos_part b + neg_part a)

-- The units in 1.0.
unfoldable pub units : ℕ
units = 2 ^ 1074

pub data Float : Type 0 where
  nan : Float
  infinity : Float
  neg_infinity : Float
  finite : ℤ → Float

-- The exact value of an integer, as a number of units.
unfoldable pub in_units : ℤ → ℤ
in_units (pos n) = pos (n * units)
in_units (negsuc n) = negsuc (suc n * units - 1)

-- `a <= b`: false as soon as one side is not a number
unfoldable pub float_le : Float → Float → Bool
float_le nan b = false
float_le neg_infinity nan = false
float_le neg_infinity b = true
float_le infinity infinity = true
float_le infinity b = false
float_le (finite a) nan = false
float_le (finite a) infinity = true
float_le (finite a) neg_infinity = false
float_le (finite a) (finite b) = leb_ℤ a b

-- `a > b`: false as soon as one side is not a number
unfoldable pub float_gt : Float → Float → Bool
float_gt nan b = false
float_gt neg_infinity b = false
float_gt infinity nan = false
float_gt infinity infinity = false
float_gt infinity b = true
float_gt (finite a) nan = false
float_gt (finite a) infinity = false
float_gt (finite a) neg_infinity = true
float_gt (finite a) (finite b) = not (leb_ℤ a b)

-- `a == b`
unfoldable pub float_eq : Float → Float → Bool
float_eq nan b = false
float_eq infinity infinity = true
float_eq infinity b = false
float_eq neg_infinity neg_infinity = true
float_eq neg_infinity b = false
float_eq (finite a) (finite b) = eqb_ℤ a b
float_eq (finite a) b = false

-- `math.isfinite`
unfoldable pub is_finite : Float → Bool
is_finite (finite a) = true
is_finite f = false

unfoldable pub int_as_float : ℤ → Float
int_as_float z = finite (in_units z)

abbrev pub float_zero : Float
float_zero = finite (pos 0)

unfoldable pub million : Float
unfolding int_as_float in_units
million = int_as_float (pos 1000000)

-- `instant` counts microseconds of UTC, where a naive time is read as one of UTC; `zone` is the
-- offset from UTC, and none for a naive time.
pub record Datetime : Type 0 where
  pub instant : ℕ
  pub zone : Option ℤ

-- `d.replace(tzinfo=UTC)` of a naive time
abbrev pub as_utc : Datetime → Datetime
as_utc d = record d { zone = some (pos 0) }

abbrev pub is_naive : Datetime → Bool
is_naive d = elim d.zone [ none ↦ true | some z ↦ false ]
