-- ===== src/Telegram/Router/Names.antt =====
-- The names of the registered commands.
use hoodalpha.Prelude.{
  Bool-cases, any, find, Pairs, All-of_any, ◌≡◌, inl, inr, false, some, List, arith,
}
use hoodalpha.Go.Text.{text_eq_refl, codes, text_eq, trim_prefix, to_lower}
use hoodalpha.Telegram.Table.{Command, Router, has_name, handle}

module _ {S : Type 0} where
  -- No two commands have one name.
  abbrev pub IsDistinct : List (Command S) → Type 0
  IsDistinct = Pairs (λ c d. text_eq d.name c.name ≡ false)

  -- Registration keeps the names distinct, and the new command is found under its name, in lower case
  -- and without a slash.
  pub handle-IsDistinct :
      (c : Command S) (r r' : Router S)
      → IsDistinct r.commands
      → handle c r ≡ some r'
      → IsDistinct r'.commands
        × (find (has_name (trim_prefix (codes "/") (to_lower c.name))) r'.commands
            ≡ some (record c { name = trim_prefix (codes "/") (to_lower c.name) }))
  unfolding handle
  handle-IsDistinct c r r' distinct h =
      let name = trim_prefix (codes "/") (to_lower c.name) in
      elim (Bool-cases (any (has_name name) r.commands)) [
        | inl taken ↦ ground arith
        | inr free ↦
            let fresh = All-of_any (has_name name) r.commands free in
            ground (arith, fresh, distinct, text_eq_refl name)
      ]
