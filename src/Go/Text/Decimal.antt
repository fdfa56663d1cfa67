-- ===== src/Go/Text/Decimal.antt =====
-- Decimal text: `%d` of a natural number and of an `int64`, and `strconv.ParseInt(s, 10, 64)`.
use hoodalpha.Prelude.{
  ltb, leb, ◌==◌, if◌then◌else◌, ℕ, zero, suc, ◌+◌, ◌-◌, ◌*◌, ◌/◌, ◌%◌, ◌^◌, ◌<◌, ◌≡◌, true, false,
  ◌&&◌, Option, none, some, [], ◌∷◌, arith,
}
use hoodalpha.Prelude.Int.{ℤ, pos, negsuc}
use hoodalpha.Go.Text.Equality.{Text}

-- The digits of a number before those that are written already. The number falls with every digit,
-- so a fuel above the number is enough.
unfoldable pub digits : ℕ → ℕ → Text → Text
digits zero n out = out
digits (suc fuel) n out =
    let more = digits fuel (n / 10) ((b'0' + n % 10) ∷ out) in
    if ltb n 10 then (b'0' + n) ∷ out else more

-- `%d` of an unsigned number.
unfoldable pub decimal : ℕ → Text
unfolding digits
decimal n = digits (suc n) n []

-- `%d` of a signed number.
unfoldable pub decimal_ℤ : ℤ → Text
unfolding decimal
decimal_ℤ (pos n) = decimal n
decimal_ℤ (negsuc n) = b'-' ∷ decimal (suc n)

-- The value of a text of digits behind a number; none at another character.
unfoldable pub digits_value : ℕ → Text → Option ℕ
digits_value n [] = some n
digits_value n (c ∷ s) = elim (leb b'0' c && leb c b'9') [
  | true ↦ digits_value (n * 10 + (c - b'0')) s
  | false ↦ none
]

-- A text of at least one digit.
abbrev pub number : Text → Option ℕ
unfolding digits_value
number [] = none
number (c ∷ s) = digits_value 0 (c ∷ s)

abbrev pub at_most : ℕ → Option ℕ → Option ℕ
at_most k none = none
at_most k (some n) = if leb n k then some n else none

abbrev negated : Option ℕ → Option ℤ
negated none = none
negated (some zero) = some (pos 0)
negated (some (suc n)) = some (negsuc n)

abbrev positive : Option ℕ → Option ℤ
positive none = none
positive (some n) = some (pos n)

-- `strconv.ParseInt(s, 10, 64)`: none for a syntax error and for a value out of range.
unfoldable pub parse_int64 : Text → Option ℤ
unfolding digits_value
parse_int64 [] = none
parse_int64 (c ∷ s) =
    if c == b'-'
    then negated (at_most (2 ^ 63) (number s))
    else if c == b'+'
    then positive (at_most (2 ^ 63 - 1) (number s))
    else positive (at_most (2 ^ 63 - 1) (number (c ∷ s)))

-- `strconv.ParseUint(s, 10, 64)`, which takes no sign.
unfoldable pub parse_uint64 : Text → Option ℕ
parse_uint64 s = at_most (2 ^ 64 - 1) (number s)

digits_value-digits :
    (fuel n : ℕ) (out : Text) → n < fuel → digits_value 0 (digits fuel n out) ≡ digits_value n out
unfolding digits digits_value
digits_value-digits zero n out h = absurd (omega arith)
digits_value-digits (suc fuel) n out h =
    ground (arith, digits_value-digits fuel (n / 10) ((b'0' + n % 10) ∷ out))

-- The digits of a number spell the number.
pub digits_value-decimal : (n : ℕ) → digits_value 0 (decimal n) ≡ some n
unfolding decimal digits_value
digits_value-decimal n = digits_value-digits (suc n) n [] (omega arith)
