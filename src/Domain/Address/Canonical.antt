-- ===== src/Domain/Address/Canonical.antt =====
-- The canonical texts of `ParseAddress` and `ParseHash`.
use hoodalpha.Domain.Address.{matches_hex, parse_hex, parse_address, parse_hash}
use hoodalpha.Prelude.{
  Bool-cases, length, all, All, ℕ, ◌≤◌, String, ◌≡◌, refl, sym, ap, ◌∙◌, ◌⊎◌, inl, inr, true, false,
  [], ◌∷◌, arith,
}
use hoodalpha.Go.Text.{
  Text, Solid, trim_space_of_Solid, is_space, trim_space, length-to_lower, lower, to_lower,
  is_hex_digit, digits,
}
use hoodalpha.Go.Error.{ok}

-- `0-9` or `a-f`.
abbrev pub IsLowerHex : ℕ → Type 0
IsLowerHex c = ((b'0' ≤ c) × (c ≤ b'9')) ⊎ ((b'a' ≤ c) × (c ≤ b'f'))

-- `0x` and `n` lower-case hexadecimal digits.
abbrev pub IsCanonical : ℕ → Text → Type 0
IsCanonical n t =
    (digits : Text) × (t ≡ b'0' ∷ b'x' ∷ digits) × (length digits ≡ n) × All IsLowerHex digits

lower-IsLowerHex : (c : ℕ) → is_hex_digit c ≡ true → IsLowerHex (lower c)
unfolding is_hex_digit lower
lower-IsLowerHex c h = ground arith

to_lower-IsLowerHex : (s : Text) → all is_hex_digit s ≡ true → All IsLowerHex (to_lower s)
unfolding to_lower
to_lower-IsLowerHex [] h = tt
to_lower-IsLowerHex (c ∷ s) h = ground (arith, lower-IsLowerHex c, to_lower-IsLowerHex s)

lower_digit : (c : ℕ) → IsLowerHex c → lower c ≡ c
unfolding lower
lower_digit c h = ground arith

lower_digits : (s : Text) → All IsLowerHex s → to_lower s ≡ s
unfolding to_lower
lower_digits [] h = refl
lower_digits (c ∷ s) (h, k) = cc (lower_digit c h, lower_digits s k)

digit-Solid : (c : ℕ) → IsLowerHex c → is_space c ≡ false
unfolding is_space
digit-Solid c h = ground arith

digits-Solid : (s : Text) → All IsLowerHex s → Solid s
digits-Solid [] h = tt
digits-Solid (c ∷ s) (h, k) = (digit-Solid c h, digits-Solid s k)

all_hex_digits : (s : Text) → All IsLowerHex s → all is_hex_digit s ≡ true
unfolding is_hex_digit
all_hex_digits [] h = refl
all_hex_digits (c ∷ s) (h, k) = ground (arith, all_hex_digits s k)

-- What the regular expression matches is canonical in lower case.
matches_hex-IsCanonical : (n : ℕ) (s : Text) → matches_hex n s ≡ true → IsCanonical n (to_lower s)
unfolding matches_hex to_lower
matches_hex-IsCanonical n [] h = cc
matches_hex-IsCanonical n (a ∷ []) h = cc
matches_hex-IsCanonical n (a ∷ b ∷ digits) h = (
  to_lower digits,
  ground (arith),
  ground (arith, length-to_lower digits),
  to_lower-IsLowerHex digits (ground arith),
)

matches_hex_complete : (n : ℕ) (s : Text) → IsCanonical n s → matches_hex n s ≡ true
unfolding matches_hex
matches_hex_complete n s (digits, e, len, low) = rw e (ground (arith, all_hex_digits digits low))

parse_hex_sound :
    (n : ℕ) (complaint : String) (s a : Text)
    → parse_hex n complaint s ≡ ok a
    → IsCanonical n a × (a ≡ to_lower (trim_space s))
unfolding parse_hex
parse_hex_sound n complaint s a h = elim (Bool-cases (matches_hex n (trim_space s))) [
  | inl m ↦
      let e : a ≡ to_lower (trim_space s) = ground arith in
      (rw e (matches_hex-IsCanonical n (trim_space s) m), e)
  | inr m ↦ ground arith
]

parse_hex_complete :
    (n : ℕ) (complaint : String) (s : Text) → IsCanonical n s → parse_hex n complaint s ≡ ok s
unfolding parse_hex is_space to_lower
parse_hex_complete n complaint s (digits, e, len, low) =
    let solid : Solid s = rw e (refl, (refl, digits-Solid digits low)) in
    let m : matches_hex n s ≡ true = matches_hex_complete n s (digits, e, len, low) in
    let l : to_lower s ≡ s = rw e (ap (λ (t : Text). b'0' ∷ b'x' ∷ t) (lower_digits digits low)) in
    rw (trim_space_of_Solid s solid, m) (ap ok l)

-- `ParseAddress` accepts a text only in canonical form: what it returns is `0x` with forty
-- lower-case digits, and is the text without the spaces around it, in lower case.
pub parse_address-IsCanonical :
    (s a : Text) → parse_address s ≡ ok a → IsCanonical 40 a × (a ≡ to_lower (trim_space s))
unfolding parse_address
parse_address-IsCanonical s a = parse_hex_sound 40 _ s a

-- `ParseAddress` returns a canonical address as it is, so parsing a second time changes nothing.
pub parse_address_of_IsCanonical : (a : Text) → IsCanonical 40 a → parse_address a ≡ ok a
unfolding parse_address
parse_address_of_IsCanonical a = parse_hex_complete 40 _ a

-- The same for `ParseHash` and sixty-four digits.
pub parse_hash-IsCanonical :
    (s h : Text) → parse_hash s ≡ ok h → IsCanonical 64 h × (h ≡ to_lower (trim_space s))
unfolding parse_hash
parse_hash-IsCanonical s h = parse_hex_sound 64 _ s h

pub parse_hash_of_IsCanonical : (h : Text) → IsCanonical 64 h → parse_hash h ≡ ok h
unfolding parse_hash
parse_hash_of_IsCanonical h = parse_hex_complete 64 _ h

hex_digit-Solid : (c : ℕ) → is_hex_digit c ≡ true → is_space c ≡ false
unfolding is_hex_digit is_space
hex_digit-Solid c h = ground arith

hex_digits-Solid : (s : Text) → all is_hex_digit s ≡ true → Solid s
hex_digits-Solid [] h = tt
hex_digits-Solid (c ∷ s) h = (hex_digit-Solid c (ground arith), hex_digits-Solid s (ground arith))

matches_hex-Solid : (n : ℕ) (s : Text) → matches_hex n s ≡ true → Solid s
unfolding matches_hex is_space
matches_hex-Solid n [] h = tt
matches_hex-Solid n (a ∷ []) h = ground arith
matches_hex-Solid n (a ∷ b ∷ digits) h =
    (ground arith, (ground arith, hex_digits-Solid digits (ground arith)))

parse_hex_of_match :
    (n : ℕ) (complaint : String) (s : Text)
    → matches_hex n s ≡ true
    → parse_hex n complaint s ≡ ok (to_lower s)
unfolding parse_hex
parse_hex_of_match n complaint s m = rw (trim_space_of_Solid s (matches_hex-Solid n s m), m) refl

-- A text of `0x` and forty hexadecimal digits, in either case, is accepted, and so is one with
-- sixty-four digits as a hash.
pub parse_address_of_match :
    (s : Text)
    → matches_hex 40 s ≡ true
    → (parse_address s ≡ ok (to_lower s)) × IsCanonical 40 (to_lower s)
unfolding parse_address
parse_address_of_match s m = (parse_hex_of_match 40 _ s m, matches_hex-IsCanonical 40 s m)

pub parse_hash_of_match :
    (s : Text)
    → matches_hex 64 s ≡ true
    → (parse_hash s ≡ ok (to_lower s)) × IsCanonical 64 (to_lower s)
unfolding parse_hash
parse_hash_of_match s m = (parse_hex_of_match 64 _ s m, matches_hex-IsCanonical 64 s m)

-- Two texts that are accepted and differ in the case of letters and in the spaces around them are
-- the same address; and an address that was accepted is accepted again, unchanged.
pub parse_address_canonical :
    (s t a b : Text)
    → to_lower (trim_space s) ≡ to_lower (trim_space t)
    → parse_address s ≡ ok a
    → parse_address t ≡ ok b
    → (a ≡ b) × (parse_address a ≡ ok a)
parse_address_canonical s t a b e p q =
    let (form, from_s) = parse_address-IsCanonical s a p in
    let (_, from_t) = parse_address-IsCanonical t b q in
    (from_s ∙ e ∙ sym from_t, parse_address_of_IsCanonical a form)
