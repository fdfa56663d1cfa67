-- ===== src/Go/Text/Search.antt =====
-- Prefixes, substrings and letter case.
use hoodalpha.Prelude.{
  leb, ◌==◌, if◌then◌else◌, Option-cases, length, ℕ, ◌+◌, ◌≤◌, ◌≡◌, refl, inl, inr, Bool, true,
  false, ◌&&◌, ◌||◌, Option, none, some, List, [], ◌∷◌, ◌++◌, arith,
}
use hoodalpha.Go.Text.Equality.{Text}

-- `strings.HasPrefix`, with the prefix first.
unfoldable pub has_prefix : Text → Text → Bool
has_prefix [] s = true
has_prefix (p ∷ ps) [] = false
has_prefix (p ∷ ps) (c ∷ s) = p == c && has_prefix ps s

-- The text behind a prefix of it; the text itself where it does not begin so: `strings.TrimPrefix`.
after_prefix : Text → Text → Option Text
after_prefix [] s = some s
after_prefix (p ∷ ps) [] = none
after_prefix (p ∷ ps) (c ∷ s) = elim (p == c) [ true ↦ after_prefix ps s | false ↦ none ]

unfoldable pub trim_prefix : Text → Text → Text
unfolding after_prefix
trim_prefix p s = elim (after_prefix p s) [ none ↦ s | some rest ↦ rest ]

-- `strings.Contains`, with the part first.
unfoldable pub contains : Text → Text → Bool
unfolding has_prefix
contains p [] = has_prefix p []
contains p (c ∷ s) = has_prefix p (c ∷ s) || contains p s

-- The text up to the first place of a code point, the whole text if there is none.
unfoldable pub before : ℕ → Text → Text
before a [] = []
before a (c ∷ s) = elim (c == a) [ true ↦ [] | false ↦ c ∷ before a s ]

-- The pieces between the places of a code point, the piece begun so far first.
split_from : ℕ → Text → Text → List Text
split_from a piece [] = piece ∷ []
split_from a piece (c ∷ s) = elim (c == a) [
  | true ↦ piece ∷ split_from a [] s
  | false ↦ split_from a (piece ++ c ∷ []) s
]

-- `strings.Split` at a separator of one character.
unfoldable pub split : ℕ → Text → List Text
unfolding split_from
split a s = split_from a [] s

-- The ASCII part of `unicode.ToLower`.
unfoldable pub lower : ℕ → ℕ
lower c = if leb b'A' c && leb c b'Z' then c + 32 else c

-- `strings.ToLower` on a text of ASCII characters.
unfoldable pub to_lower : Text → Text
unfolding lower
to_lower [] = []
to_lower (c ∷ s) = lower c ∷ to_lower s

-- The character class `[0-9a-fA-F]`.
unfoldable pub is_hex_digit : ℕ → Bool
is_hex_digit c =
    (leb b'0' c && leb c b'9') || (leb b'a' c && leb c b'f') || (leb b'A' c && leb c b'F')

pub has_prefix-append : (p s : Text) → has_prefix p (p ++ s) ≡ true
unfolding has_prefix
has_prefix-append [] s = refl
has_prefix-append (c ∷ p) s = ground (arith, has_prefix-append p s)

-- A text that begins with a part contains it.
pub contains-append : (p s : Text) → contains p (p ++ s) ≡ true
unfolding contains has_prefix
contains-append [] [] = refl
contains-append [] (c ∷ s) = refl
contains-append (c ∷ p) s = ground (arith, has_prefix-append p s)

pub lower_idem : (c : ℕ) → lower (lower c) ≡ lower c
unfolding lower
lower_idem c = ground arith

pub to_lower_idem : (s : Text) → to_lower (to_lower s) ≡ to_lower s
unfolding to_lower
to_lower_idem [] = refl
to_lower_idem (c ∷ s) = cc (lower_idem c, to_lower_idem s)

pub length-to_lower : (s : Text) → length (to_lower s) ≡ length s
unfolding to_lower
length-to_lower [] = refl
length-to_lower (c ∷ s) = omega (arith, length-to_lower s)

length-after_prefix : (p s rest : Text) → after_prefix p s ≡ some rest → length rest ≤ length s
unfolding after_prefix
length-after_prefix [] s rest h = ground arith
length-after_prefix (a ∷ p) [] rest h = ground arith
length-after_prefix (a ∷ p) (c ∷ s) rest h = ground (arith, length-after_prefix p s rest)

-- What is left behind a prefix is not longer than the text.
pub length-trim_prefix : (p s : Text) → length (trim_prefix p s) ≤ length s
unfolding trim_prefix
length-trim_prefix p s = elim (Option-cases (after_prefix p s)) [
  | inl e ↦ ground arith
  | inr (rest, e) ↦ ground (arith, length-after_prefix p s rest e)
]
