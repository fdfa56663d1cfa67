-- ===== src/Go/Text/Space.antt =====
-- `strings.TrimSpace` and `strings.Fields`.
use hoodalpha.Prelude.{
  leb, ◌==◌, if◌then◌else◌, length, All, All-append, ℕ, ◌≤◌, ◌≡◌, refl, sym, ap, Bool, true, false,
  ◌&&◌, ◌||◌, List, [], ◌∷◌, ◌++◌, append-nil, append_assoc, arith,
}
use hoodalpha.Go.Text.Equality.{Text}

-- `unicode.IsSpace`
unfoldable pub is_space : ℕ → Bool
is_space c =
    (leb 9 c && leb c 13)
    || c == 32
    || c == 0x85
    || c == 0xa0
    || c == 0x1680
    || (leb 0x2000 c && leb c 0x200a)
    || c == 0x2028
    || c == 0x2029
    || c == 0x202f
    || c == 0x205f
    || c == 0x3000

unfoldable pub trim_left : Text → Text
trim_left [] = []
trim_left (c ∷ s) = elim (is_space c) [ true ↦ trim_left s | false ↦ c ∷ s ]

-- One more code point before a text whose spaces on the right are cut off.
abbrev before_trimmed : ℕ → Text → Text
before_trimmed c [] = if is_space c then [] else c ∷ []
before_trimmed c (d ∷ r) = c ∷ d ∷ r

unfoldable pub trim_right : Text → Text
trim_right [] = []
trim_right (c ∷ s) = before_trimmed c (trim_right s)

-- `strings.TrimSpace`
unfoldable pub trim_space : Text → Text
unfolding trim_right trim_left
trim_space s = trim_right (trim_left s)

-- No code point is a space.
abbrev pub Solid : Text → Type 0
Solid = All (λ c. is_space c ≡ false)

abbrev emit : Text → List Text → List Text
emit [] rest = rest
emit (c ∷ word) rest = (c ∷ word) ∷ rest

-- The words of a text behind the word that is being read.
unfoldable pub fields_from : Text → Text → List Text
fields_from word [] = emit word []
fields_from word (c ∷ s) = elim (is_space c) [
  | true ↦ emit word (fields_from [] s)
  | false ↦ fields_from (word ++ c ∷ []) s
]

-- `strings.Fields`
unfoldable pub fields : Text → List Text
unfolding fields_from
fields s = fields_from [] s

trim_left_of_Solid : (s : Text) → Solid s → trim_left s ≡ s
unfolding trim_left
trim_left_of_Solid [] h = refl
trim_left_of_Solid (c ∷ s) h = ground arith

trim_right_of_Solid : (s : Text) → Solid s → trim_right s ≡ s
unfolding trim_right
trim_right_of_Solid [] h = refl
trim_right_of_Solid (c ∷ []) h = ground arith
trim_right_of_Solid (c ∷ d ∷ s) h = rw (trim_right_of_Solid (d ∷ s) h.1)

pub trim_space_of_Solid : (s : Text) → Solid s → trim_space s ≡ s
unfolding trim_space
trim_space_of_Solid s h = rw (trim_left_of_Solid s h) (trim_right_of_Solid s h)

emit-Solid :
    (word : Text) (rest : List Text) → Solid word → All Solid rest → All Solid (emit word rest)
emit-Solid [] rest h k = k
emit-Solid (c ∷ word) rest h k = (h, k)

fields_from-Solid : (word s : Text) → Solid word → All Solid (fields_from word s)
unfolding fields_from
fields_from-Solid word [] h = emit-Solid word [] h tt
fields_from-Solid word (c ∷ s) h = ground (
  arith,
  emit-Solid word (fields_from [] s) h (fields_from-Solid [] s tt),
  λ (e : is_space c ≡ false).
      fields_from-Solid (word ++ c ∷ []) s
        (All-append (λ d. is_space d ≡ false) word (c ∷ []) h (e, tt)),
)

-- No word of a text holds a space.
pub fields-Solid : (s : Text) → All Solid (fields s)
unfolding fields
fields-Solid s = fields_from-Solid [] s tt

fields_from_of_Solid : (word : Text) (s : Text) → Solid s → fields_from word s ≡ emit (word ++ s) []
unfolding fields_from
fields_from_of_Solid word [] h = ap (λ w. emit w []) (sym (append-nil word))
fields_from_of_Solid word (c ∷ s) h =
    ground (arith, fields_from_of_Solid (word ++ c ∷ []) s h.1, append_assoc word (c ∷ []) s)

-- A text without spaces is one word, or none.
pub length-fields_of_Solid : (s : Text) → Solid s → length (fields s) ≤ 1
unfolding fields
length-fields_of_Solid [] h = ground (arith, fields_from_of_Solid [] [] h)
length-fields_of_Solid (c ∷ s) h = ground (arith, fields_from_of_Solid [] (c ∷ s) h)
