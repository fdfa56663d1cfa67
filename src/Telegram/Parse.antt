-- ===== src/Telegram/Parse.antt =====
-- `parseCommand` of internal/telegram/router.go.
use hoodalpha.Prelude.{
  ◌==◌, if◌then◌else◌, Bool-cases, All, ℕ, ◌≡◌, refl, ◌≢◌, inl, inr, List, [], ◌∷◌, arith,
}
use hoodalpha.Go.Text.{
  Text, codes, text_eq, Solid, fields-Solid, trim_space, fields, to_lower_idem, has_prefix,
  trim_prefix, before, to_lower,
}

-- `strings.Index` of the sign and the cut before it.
abbrev pub at_sign : ℕ
at_sign = b'@'

-- `parseCommand` on the words of a message that begins with a slash.
parse_words : List Text → Text × List Text
parse_words [] = ([], [])
parse_words (word ∷ args) =
    let name = before at_sign (to_lower (trim_prefix (codes "/") word)) in
    if text_eq name [] then ([], []) else (name, args)

-- `parseCommand`: no name for what is not a command. Letter case is that of ASCII.
unfoldable pub parse_command : Text → Text × List Text
unfolding parse_words
parse_command text =
    let trimmed = trim_space text in
    if has_prefix (codes "/") trimmed then parse_words (fields trimmed) else ([], [])

-- The text before a sign has no such sign.
before-All : (a : ℕ) (s : Text) → All (λ c. c ≢ a) (before a s)
unfolding before
before-All a [] = tt
before-All a (c ∷ s) = elim (Bool-cases (c == a)) [
  | inl e ↦ ground (arith, before-All a s)
  | inr e ↦ ground (arith, before-All a s)
]

-- Cutting a lowered text leaves it lowered.
to_lower-before : (a : ℕ) (s : Text) → to_lower s ≡ s → to_lower (before a s) ≡ before a s
unfolding before to_lower
to_lower-before a [] h = refl
to_lower-before a (c ∷ s) h = ground (arith, to_lower-before a s)

-- A name in lower case without the sign, and arguments that are words.
abbrev pub IsCommand : Text × List Text → Type 0
IsCommand (name, args) = (to_lower name ≡ name) × All (λ c. c ≢ at_sign) name × All Solid args

parse_words-IsCommand : (words : List Text) → All Solid words → IsCommand (parse_words words)
unfolding parse_words to_lower
parse_words-IsCommand [] h = (refl, tt, tt)
parse_words-IsCommand (word ∷ args) h =
    let lowered = to_lower (trim_prefix (codes "/") word) in
    let name = before at_sign lowered in
    elim (Bool-cases (text_eq name [])) [
      | inl e ↦ rw e (refl, tt, tt)
      | inr e ↦ rw e (
        to_lower-before at_sign lowered (to_lower_idem (trim_prefix (codes "/") word)),
        before-All at_sign lowered,
        h.1,
      )
    ]

-- The name of a command is in lower case and has no "@"; the arguments are words: no white space is in
-- them.
pub parse_command-IsCommand : (text : Text) → IsCommand (parse_command text)
unfolding parse_command to_lower
parse_command-IsCommand text = elim (Bool-cases (has_prefix (codes "/") (trim_space text))) [
  | inl e ↦ rw e (parse_words-IsCommand (fields (trim_space text)) (fields-Solid (trim_space text)))
  | inr e ↦ rw e (refl, tt, tt)
]
