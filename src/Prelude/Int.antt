-- ===== src/Prelude/Int.antt =====
-- Signed integers over the native numbers, under the library's names, and the 64-bit range of Go.
use Prim.Native.Nat.{ℕ, suc, ◌+◌, ◌-◌, ◌*◌, ◌%◌, ◌^◌, ◌≤◌}
use mathlib.Core.Path.{◌≡◌}
use mathlib.Core.Bool.{true, Bool}
use native.Mathlib.Omega.{arith}
use hoodalpha.Prelude.Tests.{ltb, leb, ◌==◌, if◌then◌else◌}

-- `negsuc n` is -(n + 1).
pub data ℤ : Type 0 where
  pos : ℕ → ℤ
  negsuc : ℕ → ℤ

abbrev pub pos_part : ℤ → ℕ
pos_part (pos n) = n
pos_part (negsuc n) = 0

abbrev pub neg_part : ℤ → ℕ
neg_part (pos n) = 0
neg_part (negsuc n) = suc n

-- a - b, as an integer.
abbrev pub sub_ℕ : ℕ → ℕ → ℤ
sub_ℕ a b = if leb b a then pos (a - b) else negsuc (b - a - 1)

infixl 65 ◌+ℤ◌ ◌-ℤ◌
infix 50 ◌≤ℤ◌
unfoldable pub ◌+ℤ◌ : ℤ → ℤ → ℤ
a +ℤ b = sub_ℕ (pos_part a + pos_part b) (neg_part a + neg_part b)

unfoldable pub ◌-ℤ◌ : ℤ → ℤ → ℤ
a -ℤ b = sub_ℕ (pos_part a + neg_part b) (neg_part a + pos_part b)

-- An integer multiplied by a number.
unfoldable pub scale : ℕ → ℤ → ℤ
scale k a = sub_ℕ (k * pos_part a) (k * neg_part a)

abbrev pub ◌≤ℤ◌ : ℤ → ℤ → Type 0
a ≤ℤ b = pos_part a + neg_part b ≤ pos_part b + neg_part a

abbrev pub leb_ℤ : ℤ → ℤ → Bool
leb_ℤ a b = leb (pos_part a + neg_part b) (pos_part b + neg_part a)

abbrev pub ltb_ℤ : ℤ → ℤ → Bool
ltb_ℤ a b = ltb (pos_part a + neg_part b) (pos_part b + neg_part a)

abbrev pub eqb_ℤ : ℤ → ℤ → Bool
eqb_ℤ a b = pos_part a + neg_part b == pos_part b + neg_part a

pub eqb_ℤ-refl : (a : ℤ) → eqb_ℤ a a ≡ true
eqb_ℤ-refl a = ground arith

pub +ℤ_parts :
    (a b : ℤ)
    → pos_part (a +ℤ b) + neg_part a + neg_part b ≡ neg_part (a +ℤ b) + pos_part a + pos_part b
unfolding ◌+ℤ◌
+ℤ_parts a b = ground arith

pub -ℤ_parts :
    (a b : ℤ)
    → pos_part (a -ℤ b) + neg_part a + pos_part b ≡ neg_part (a -ℤ b) + pos_part a + neg_part b
unfolding ◌-ℤ◌
-ℤ_parts a b = ground arith

pub ruleset int_laws = (arith, +ℤ_parts, -ℤ_parts)

-- A word read as an `int64`: the conversion `int64(x)`.
unfoldable pub to_int64 : ℕ → ℤ
to_int64 x = let w = x % 2 ^ 64 in if ltb w (2 ^ 63) then pos w else sub_ℕ w (2 ^ 64)

-- The word that holds an integer modulo 2^64: the conversion `uint64(x)`.
unfoldable pub to_word64 : ℤ → ℕ
to_word64 (pos n) = n % 2 ^ 64
to_word64 (negsuc n) = 2 ^ 64 - 1 - n % 2 ^ 64

-- The conversion `int32(x)`: the low 32 bits, with their sign.
unfoldable pub to_int32 : ℤ → ℤ
unfolding to_word64
to_int32 x = let w = to_word64 x % 2 ^ 32 in if ltb w (2 ^ 31) then pos w else sub_ℕ w (2 ^ 32)
