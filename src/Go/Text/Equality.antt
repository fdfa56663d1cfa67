-- ===== src/Go/Text/Equality.antt =====
-- Texts, their literals, and `==` on them.
use Prim.Native.Char.{code}
use hoodalpha.Prelude.{
  ◌==◌, ℕ, String, ◌≡◌, refl, ◌↔◌, Bool, true, false, ◌&&◌, List, [], ◌∷◌, arith,
}

-- A text is the list of its code points.
abbrev pub Text : Type 0
Text = List ℕ

-- The code points of a literal of the source.
unfoldable pub codes : String → Text
codes String.[] = []
codes (String.◌∷◌ c s) = code c ∷ codes s

unfoldable pub text_eq : Text → Text → Bool
text_eq [] [] = true
text_eq (a ∷ s) (b ∷ t) = a == b && text_eq s t
text_eq _ _ = false

text_eq_sound : (s t : Text) → text_eq s t ≡ true → s ≡ t
unfolding text_eq
text_eq_sound [] [] h = refl
text_eq_sound [] (b ∷ t) h = cc
text_eq_sound (a ∷ s) [] h = cc
text_eq_sound (a ∷ s) (b ∷ t) h = ground (arith, text_eq_sound s t)

pub text_eq_refl : (s : Text) → text_eq s s ≡ true
unfolding text_eq
text_eq_refl [] = refl
text_eq_refl (a ∷ s) = ground (arith, text_eq_refl s)

pub text_eq_iff : (s t : Text) → (text_eq s t ≡ true) ↔ (s ≡ t)
text_eq_iff s t = (text_eq_sound s t, λ e. rw e (text_eq_refl t))
