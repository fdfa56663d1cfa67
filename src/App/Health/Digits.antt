-- ===== src/App/Health/Digits.antt =====
-- `itoa` of internal/application/health.go against the decimal text of `%d`.
use hoodalpha.Prelude.{ℕ, zero, suc, ◌+◌, ◌/◌, ◌%◌, ◌^◌, ◌<◌, ◌≡◌, refl, sym, [], ◌∷◌, arith}
use hoodalpha.Go.Text.{Text, codes, digits, decimal}
use hoodalpha.App.Health.{itoa_digits, itoa}

itoa_digits_zero : (fuel : ℕ) (buf : Text) → itoa_digits fuel 0 buf ≡ buf
unfolding itoa_digits
itoa_digits_zero zero buf = refl
itoa_digits_zero (suc fuel) buf = refl

itoa_digits-digits :
    (fuel more v : ℕ) (buf : Text)
    → 0 < v
    → v < 10 ^ fuel
    → v < more
    → itoa_digits fuel v buf ≡ digits more v buf
unfolding itoa_digits digits
itoa_digits-digits zero more v buf h k l = absurd (omega arith)
itoa_digits-digits (suc fuel) zero v buf h k l = absurd (omega arith)
itoa_digits-digits (suc fuel) (suc more) v buf h k l = ground (
  arith,
  itoa_digits_zero fuel ((b'0' + v) ∷ buf),
  itoa_digits-digits fuel more (v / 10) ((b'0' + v % 10) ∷ buf),
)

decimal-digits : (v : ℕ) → decimal v ≡ digits (suc v) v []
unfolding decimal
decimal-digits v = refl

decimal_zero : decimal 0 ≡ codes "0"
unfolding decimal digits codes
decimal_zero = refl

-- `itoa` writes every 64-bit number as its decimal digits: the buffer of twenty digits is long enough.
pub itoa-decimal : (v : ℕ) → v < 2 ^ 64 → itoa v ≡ decimal v
unfolding itoa
itoa-decimal zero h = sym decimal_zero
itoa-decimal (suc v) h = ground (
  arith,
  decimal-digits (suc v),
  itoa_digits-digits 20 (suc (suc v)) (suc v) [] (omega arith) (omega arith) (omega arith),
)
