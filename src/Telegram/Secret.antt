-- ===== src/Telegram/Secret.antt =====
-- `looksLikeSecret` of internal/telegram/commands.go.
use hoodalpha.Prelude.{
  leb, ◌==◌, if◌then◌else◌, Bool-cases, length, all, ℕ, ◌≤◌, ◌≡◌, refl, ◌⊎◌, inl, inr, Bool, true,
  false, not, ◌&&◌, ◌||◌, [], ◌∷◌, ◌++◌, arith,
}
use hoodalpha.Go.Text.{
  Text, codes, text_eq, Solid, trim_space_of_Solid, length-fields_of_Solid, is_space, trim_space,
  fields, length-trim_prefix, trim_prefix, is_hex_digit, digits,
}
use hoodalpha.Go.Error.{ok}
use hoodalpha.Domain.Address.{matches_hex, parse_address}

-- A letter of ASCII.
unfoldable pub is_letter : ℕ → Bool
is_letter c = (leb b'a' c && leb c b'z') || (leb b'A' c && leb c b'Z')

-- `isHex`
unfoldable pub is_hex : Text → Bool
unfolding is_hex_digit
is_hex s = all is_hex_digit s

-- `isAlpha`
unfoldable pub is_alpha : Text → Bool
unfolding is_letter
is_alpha s = not (text_eq s []) && all is_letter s

-- The lengths of a BIP-39 mnemonic.
abbrev pub is_mnemonic_length : ℕ → Bool
is_mnemonic_length n = n == 12 || n == 15 || n == 18 || n == 21 || n == 24

-- The text behind the marks "0x" and "0X".
unfoldable pub bare_hex : Text → Text
bare_hex s = trim_prefix (codes "0X") (trim_prefix (codes "0x") s)

unfoldable pub is_key_shaped : Text → Bool
unfolding is_hex bare_hex
is_key_shaped s = length (bare_hex s) == 64 && is_hex (bare_hex s)

-- `looksLikeSecret`
unfoldable pub looks_like_secret : Text → Bool
unfolding is_key_shaped is_alpha
looks_like_secret s =
    let trimmed = trim_space s in
    let words = fields trimmed in
    if is_key_shaped trimmed
    then true
    else if is_mnemonic_length (length words)
    then all is_alpha words
    else false

-- On one word, the test for a mnemonic is never reached: only the shape of a key counts.
pub looks_like_secret_word : (s : Text) → Solid s → looks_like_secret s ≡ is_key_shaped s
unfolding looks_like_secret
looks_like_secret_word s h = ground (arith, trim_space_of_Solid s h, length-fields_of_Solid s h)

-- Hexadecimal digits are no spaces.
pub hex-Solid : (s : Text) → all is_hex_digit s ≡ true → Solid s
unfolding is_hex_digit is_space
hex-Solid [] h = tt
hex-Solid (c ∷ s) h = ground (arith, hex-Solid s)

matches_hex-word :
    (t : Text) → matches_hex 40 t ≡ true → Solid t × (length t ≡ 42) × (length (bare_hex t) ≤ 40)
unfolding matches_hex bare_hex is_space trim_prefix codes
matches_hex-word [] h = ground arith
matches_hex-word (a ∷ []) h = ground arith
matches_hex-word (a ∷ b ∷ digits) h =
    ground (arith, hex-Solid digits, length-trim_prefix (codes "0X") digits)

-- A text that is accepted as an address is not taken for a secret.
pub parse_address-is_no_secret : (s a : Text) → parse_address s ≡ ok a → looks_like_secret s ≡ false
unfolding looks_like_secret is_key_shaped parse_address
parse_address-is_no_secret s a h = elim (Bool-cases (matches_hex 40 (trim_space s))) [
  | inr e ↦ ground arith
  | inl e ↦
      let (solid, len, bare) = matches_hex-word (trim_space s) e in
      ground (arith, length-fields_of_Solid (trim_space s) solid, bare)
]

unmarked_hex :
    (key : Text)
    → is_hex key ≡ true
    → (trim_prefix (codes "0x") key ≡ key) × (trim_prefix (codes "0X") key ≡ key)
unfolding is_hex is_hex_digit trim_prefix codes
unmarked_hex [] h = (refl, refl)
unmarked_hex (a ∷ []) h = ground arith
unmarked_hex (a ∷ b ∷ s) h = ground arith

trim_marked :
    (key : Text)
    → (trim_prefix (codes "0x") (codes "0x" ++ key) ≡ key)
      × (trim_prefix (codes "0x") (codes "0X" ++ key) ≡ codes "0X" ++ key)
      × (trim_prefix (codes "0X") (codes "0X" ++ key) ≡ key)
unfolding trim_prefix codes
trim_marked key = (refl, refl, refl)

bare_hex_forms :
    (key : Text)
    → is_hex key ≡ true
    → (bare_hex key ≡ key)
      × (bare_hex (codes "0x" ++ key) ≡ key)
      × (bare_hex (codes "0X" ++ key) ≡ key)
unfolding bare_hex
bare_hex_forms key h =
    let (lower_x, upper_x) = unmarked_hex key h in
    let (marked, other, capital) = trim_marked key in
    (rw lower_x upper_x, rw marked upper_x, rw other capital)

-- A private key in hexadecimal is taken for a secret, with either mark or none and with any space
-- around it.
pub key-looks_like_secret :
    (s key : Text)
    → length key ≡ 64
    → is_hex key ≡ true
    → (trim_space s ≡ key)
      ⊎ ((trim_space s ≡ codes "0x" ++ key) ⊎ (trim_space s ≡ codes "0X" ++ key))
    → looks_like_secret s ≡ true
unfolding looks_like_secret is_key_shaped
key-looks_like_secret s key h k form =
    let (bare, marked, capital) = bare_hex_forms key k in ground (arith, bare, marked, capital)
