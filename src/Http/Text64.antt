-- ===== src/Http/Text64.antt =====
-- `itoa64` of internal/httpapi/miniapp.go.
use hoodalpha.Prelude.{ℕ, zero, suc, ◌-◌, ◌^◌, ◌<◌, ◌≡◌, refl, sym, ap, ◌∙◌, ◌∷◌, arith}
use hoodalpha.Prelude.Int.{ℤ, pos, negsuc, pos_part, neg_part, ◌-ℤ◌, to_int64, to_word64}
use hoodalpha.Go.Text.{codes, decimal, decimal_ℤ}
use hoodalpha.App.Health.Digits.{itoa-decimal}
use hoodalpha.Http.Bodies.{digits64, itoa64}

negated_word : (n : ℕ) → suc n < 2 ^ 63 → to_int64 (to_word64 (pos 0 -ℤ negsuc n)) ≡ pos (suc n)
unfolding to_int64 to_word64 ◌-ℤ◌
negated_word n h = ground arith

decimal_negsuc : (n : ℕ) → decimal_ℤ (negsuc n) ≡ b'-' ∷ decimal (suc n)
unfolding decimal_ℤ
decimal_negsuc n = refl

decimal_pos : (n : ℕ) → decimal_ℤ (pos n) ≡ decimal n
unfolding decimal_ℤ
decimal_pos n = refl

itoa64_negsuc : (n : ℕ) → suc n < 2 ^ 63 → itoa64 (negsuc n) ≡ b'-' ∷ decimal (suc n)
unfolding itoa64
itoa64_negsuc n h =
    ground (arith, ap digits64 (negated_word n h), itoa-decimal (suc n) (omega arith))

itoa64_zero : itoa64 (pos 0) ≡ decimal_ℤ (pos 0)
unfolding itoa64 decimal_ℤ codes
itoa64_zero = refl

-- `itoa64` writes every `int64` above the least one as its decimal digits.
pub itoa64-decimal : (v : ℤ) → pos_part v < 2 ^ 63 → neg_part v < 2 ^ 63 → itoa64 v ≡ decimal_ℤ v
unfolding itoa64
itoa64-decimal (pos zero) h k = itoa64_zero
itoa64-decimal (pos (suc n)) h k =
    ground (arith, decimal_pos (suc n), itoa-decimal (suc n) (omega arith))
itoa64-decimal (negsuc n) h k = itoa64_negsuc n k ∙ sym (decimal_negsuc n)

-- The least `int64` is written as a sign alone.
itoa64_least : itoa64 (negsuc (2 ^ 63 - 1)) ≡ codes "-"
unfolding itoa64 codes to_int64 to_word64 ◌-ℤ◌
itoa64_least = refl
