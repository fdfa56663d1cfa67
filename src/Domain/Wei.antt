-- ===== src/Domain/Wei.antt =====
-- `Wei` of internal/domain/chain.go: native amounts as exact integers.
use hoodalpha.Prelude.{
  ◌==◌, if◌then◌else◌, length, replicate, ℕ, ◌-◌, ◌/◌, ◌%◌, ◌^◌, ◌≡◌, refl, Bool, true, Option,
  none, some, [], ◌∷◌, ◌++◌,
}
use hoodalpha.Prelude.Int.{ℤ, pos, negsuc}
use hoodalpha.Go.Text.{Text, codes, decimal}

-- The field is a pointer: none is the zero value `Wei{}`. Only `NewWei` sets it, never below zero.
pub record Wei : Type 0 where
  pub i : Option ℕ

-- `NewWei`, on a `*big.Int` that may be nil.
unfoldable pub new_wei : Option ℤ → Wei
new_wei none = record { i = some 0 }
new_wei (some (pos n)) = record { i = some n }
new_wei (some (negsuc n)) = record { i = some 0 }

-- `BigInt`
unfoldable pub big_int : Wei → ℕ
big_int w = elim w.i [ none ↦ 0 | some n ↦ n ]

-- `IsZero`
unfoldable pub is_zero_wei : Wei → Bool
is_zero_wei w = elim w.i [ none ↦ true | some n ↦ n == 0 ]

-- `strings.TrimRight(s, "0")`
trim_zeros : Text → Text
trim_zeros [] = []
trim_zeros (c ∷ s) = before_zeros c (trim_zeros s)
  where
    before_zeros : ℕ → Text → Text
    before_zeros c [] = if c == b'0' then [] else c ∷ []
    before_zeros c (d ∷ r) = c ∷ d ∷ r

-- `strings.TrimSuffix(s, ".")`
trim_point : Text → Text
trim_point [] = []
trim_point (c ∷ []) = if c == b'.' then [] else c ∷ []
trim_point (c ∷ d ∷ s) = c ∷ trim_point (d ∷ s)

-- `%018s`: a text of fewer than 18 characters behind zeros.
pad18 : Text → Text
pad18 s = replicate (18 - length s) b'0' ++ s

-- `Ether`
unfoldable pub ether : Wei → Text
unfolding big_int trim_point trim_zeros pad18
ether w =
    let v = big_int w in
    trim_point (trim_zeros (decimal (v / 10 ^ 18) ++ b'.' ∷ pad18 (decimal (v % 10 ^ 18))))

ether_fraction : ether (new_wei (some (pos 1500000000000000001))) ≡ codes "1.500000000000000001"
unfolding ether new_wei decimal codes
ether_fraction = refl

ether_whole : ether (new_wei (some (pos 2000000000000000000))) ≡ codes "2"
unfolding ether new_wei decimal codes
ether_whole = refl
