-- ===== src/InitData/Query.antt =====
-- What the payload check calls of net/url and sort: `url.ParseQuery`, `Values.Get` and `sort.Strings`,
-- on texts that stand for bytes. The limit of newer Go versions on the number of pairs is left out.
use hoodalpha.Prelude.{
  ltb, leb, ◌==◌, if◌then◌else◌, any, ℕ, ◌+◌, ◌-◌, ◌*◌, ◌⊎◌, inl, inr, Bool, true, false, ◌&&◌,
  ◌||◌, Option, none, some, List, [], ◌∷◌, ◌++◌,
}
use hoodalpha.Go.Text.{Text, codes, text_eq, before, split}
use hoodalpha.Go.Error.{Error, new, Result, ok, err}
use hoodalpha.Domain.Address.{quote}

-- `url.Values`: each key once, with its values in the order of the query.
abbrev pub Values : Type 0
Values = List (Text × List Text)

-- `Values.Get`
unfoldable pub value_of : Values → Text → Text
value_of [] key = []
value_of ((k, vs) ∷ rest) key =
    let other = value_of rest key in
    if text_eq k key then elim vs [ [] ↦ [] | v ∷ _ ↦ v ] else other

-- `m[key] = append(m[key], value)`
add_value : Text → Text → Values → Values
add_value key value [] = (key, value ∷ []) ∷ []
add_value key value ((k, vs) ∷ rest) =
    let more = add_value key value rest in
    if text_eq k key then (k, vs ++ value ∷ []) ∷ rest else (k, vs) ∷ more

-- The value of a hexadecimal digit.
unfoldable pub hex_value : ℕ → Option ℕ
hex_value c =
    if leb b'0' c && leb c b'9'
    then some (c - b'0')
    else if leb b'a' c && leb c b'f'
    then some (c - b'a' + 10)
    else if leb b'A' c && leb c b'F'
    then some (c - b'A' + 10)
    else none

abbrev with_code : ℕ → Text ⊎ Text → Text ⊎ Text
with_code c (inl t) = inl (c ∷ t)
with_code c (inr bad) = inr bad

abbrev plain : ℕ → ℕ
plain c = if c == b'+' then 32 else c

-- `url.QueryUnescape`: the text, or the first escape that is not valid.
unescape : Text → Text ⊎ Text
unfolding hex_value
unescape [] = inl []
unescape (c ∷ []) = if c == b'%' then inr (c ∷ []) else inl (plain c ∷ [])
unescape (c ∷ a ∷ []) =
    let rest = unescape (a ∷ []) in if c == b'%' then inr (c ∷ a ∷ []) else with_code (plain c) rest
unescape (c ∷ a ∷ b ∷ s) =
    let behind = unescape s in
    let rest = unescape (a ∷ b ∷ s) in
    if c == b'%'
    then elim (hex_value a) [
      | none ↦ inr (c ∷ a ∷ b ∷ [])
      | some high ↦ elim (hex_value b) [
        | none ↦ inr (c ∷ a ∷ b ∷ [])
        | some low ↦ with_code (16 * high + low) behind
      ]
    ]
    else with_code (plain c) rest

-- The text behind the first place of a character, nothing if there is none.
after : ℕ → Text → Text
after a [] = []
after a (c ∷ s) = elim (c == a) [ true ↦ s | false ↦ after a s ]

abbrev escape_error : Text → Error
escape_error bad = new (codes "invalid URL escape " ++ quote bad)

-- The first error stays, but a semicolon replaces it.
abbrev first_error : Option Error → Error → Option Error
first_error none e = some e
first_error (some f) e = some f

-- The loop of `ParseQuery` over the pieces between `&`.
parse_pieces : Option Error → Values → List Text → Result Values
parse_pieces none values [] = ok values
parse_pieces (some e) values [] = err e
parse_pieces failed values (piece ∷ pieces) =
    if any (λ c. c == b';') piece
    then parse_pieces (some (new (codes "invalid semicolon separator in query"))) values pieces
    else if text_eq piece []
    then parse_pieces failed values pieces
    else elim (unescape (before b'=' piece)) [
      | inr bad ↦ parse_pieces (first_error failed (escape_error bad)) values pieces
      | inl key ↦ elim (unescape (after b'=' piece)) [
        | inr bad ↦ parse_pieces (first_error failed (escape_error bad)) values pieces
        | inl value ↦ parse_pieces failed (add_value key value values) pieces
      ]
    ]

-- `url.ParseQuery`
unfoldable pub parse_query : Text → Result Values
unfolding parse_pieces unescape after add_value
parse_query query = parse_pieces none [] (split b'&' query)

-- The order of Go strings.
unfoldable pub text_le : Text → Text → Bool
text_le [] t = true
text_le (a ∷ s) [] = false
text_le (a ∷ s) (b ∷ t) = ltb a b || (a == b && text_le s t)

insert_text : Text → List Text → List Text
unfolding text_le
insert_text t [] = t ∷ []
insert_text t (u ∷ us) = let rest = insert_text t us in if text_le t u then t ∷ u ∷ us else u ∷ rest

-- `sort.Strings`
unfoldable pub sort_texts : List Text → List Text
unfolding insert_text
sort_texts [] = []
sort_texts (t ∷ ts) = insert_text t (sort_texts ts)
