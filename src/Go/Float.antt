-- ===== src/Go/Float.antt =====
-- `float64` exactly: every finite value is a whole number of units of 2^-1074, beside the two
-- infinities and NaN, which compares with nothing.
use hoodalpha.Prelude.{ℕ, ◌*◌, ◌^◌, Bool, true, false}
use hoodalpha.Prelude.Int.{ℤ, pos, leb_ℤ, ltb_ℤ}

pub data Float : Type 0 where
  nan : Float
  minus_infinity plus_infinity : Float
  finite : ℤ → Float

unfoldable pub units : ℕ
units = 2 ^ 1074

-- A number literal.
unfoldable pub literal : ℕ → Float
literal n = finite (pos (n * units))

-- `a < b`
unfoldable pub flt : Float → Float → Bool
flt (finite a) (finite b) = ltb_ℤ a b
flt (finite a) plus_infinity = true
flt minus_infinity (finite b) = true
flt minus_infinity plus_infinity = true
flt _ _ = false

-- `a <= b`
unfoldable pub fle : Float → Float → Bool
fle (finite a) (finite b) = leb_ℤ a b
fle (finite a) plus_infinity = true
fle minus_infinity (finite b) = true
fle minus_infinity minus_infinity = true
fle minus_infinity plus_infinity = true
fle plus_infinity plus_infinity = true
fle _ _ = false
