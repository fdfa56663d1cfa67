-- ===== src/Domain/Address.antt =====
-- Addresses and hashes of internal/domain/chain.go: hexadecimal text kept in lower case.
pub mod Canonical
use hoodalpha.Go.Error.{new, Result, ok, err}
use hoodalpha.Prelude.{
  ltb, ◌==◌, if◌then◌else◌, length, all, ℕ, ◌+◌, ◌-◌, ◌/◌, ◌%◌, String, Bool, false, ◌&&◌, ◌||◌, [],
  ◌∷◌, ◌++◌,
}
use hoodalpha.Go.Text.{Text, codes, text_eq, trim_space, to_lower, is_hex_digit, digits}

abbrev pub Address : Type 0
Address = Text

abbrev pub Hash : Type 0
Hash = Text

-- The regular expression `^0x[0-9a-fA-F]{n}$`.
unfoldable pub matches_hex : ℕ → Text → Bool
matches_hex n (a ∷ b ∷ digits) =
    a == b'0' && b == b'x' && length digits == n && all is_hex_digit digits
matches_hex n _ = false

-- One character of a text under `%q`: exact on ASCII; other characters stand for themselves.
quote_code : ℕ → Text
quote_code c =
    if c == b'"' || c == 92
    then 92 ∷ c ∷ []
    else if c == 7
    then codes "\\a"
    else if c == 8
    then codes "\\b"
    else if c == 12
    then codes "\\f"
    else if c == 10
    then codes "\\n"
    else if c == 13
    then codes "\\r"
    else if c == 9
    then codes "\\t"
    else if c == 11
    then codes "\\v"
    else if ltb c 32 || c == 127
    then codes "\\x" ++ hex_digit (c / 16) ∷ hex_digit (c % 16) ∷ []
    else c ∷ []
  where
    hex_digit : ℕ → ℕ
    hex_digit d = if ltb d 10 then b'0' + d else b'a' + d - 10

-- The characters of a text under `%q`.
quote_codes : Text → Text
quote_codes [] = []
quote_codes (c ∷ s) = quote_code c ++ quote_codes s

-- `%q`
unfoldable pub quote : Text → Text
unfolding quote_codes quote_code
quote s = b'"' ∷ quote_codes s ++ b'"' ∷ []

-- `ParseAddress` and `ParseHash` differ in the number of digits and in the text of their error.
parse_hex : ℕ → String → Text → Result Text
parse_hex n complaint text =
    let s = trim_space text in
    if matches_hex n s then ok (to_lower s) else err (new (codes complaint ++ quote s))

unfoldable pub parse_address : Text → Result Address
unfolding parse_hex
parse_address = parse_hex 40 "invalid evm address "

unfoldable pub parse_hash : Text → Result Hash
unfolding parse_hex
parse_hash = parse_hex 64 "invalid hash "

-- `Address.IsZero`
unfoldable pub is_zero_address : Address → Bool
is_zero_address a = text_eq a (codes "0x0000000000000000000000000000000000000000")
