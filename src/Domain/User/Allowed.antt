-- ===== src/Domain/User/Allowed.antt =====
-- What the allowlist admits.
use hoodalpha.Prelude.{
  ◌==◌, if◌then◌else◌, Bool-cases, length, ◌≡◌, refl, ◌∙◌, inl, inr, true, false, not, ◌&&◌, ◌||◌,
  List, [], ◌∷◌, arith,
}
use hoodalpha.Prelude.Int.{ℤ, eqb_ℤ}
use hoodalpha.Domain.User.{TelegramId, is_valid_id, has_id, add_ids, new_allowlist, allows}

-- One round of the loop adds its id, if that is valid.
abbrev added : TelegramId → List TelegramId → List TelegramId
added x set = if is_valid_id x && not (has_id x set) then x ∷ set else set

eqb_ℤ-sound : (a b : ℤ) → eqb_ℤ a b ≡ true → a ≡ b
eqb_ℤ-sound a b h = ground arith

has_id-added :
    (id x : TelegramId) (set : List TelegramId)
    → has_id id (added x set) ≡ (has_id id set || (is_valid_id id && eqb_ℤ id x))
has_id-added id x set = elim (Bool-cases (eqb_ℤ id x)) [
  | inl e ↦ ground (arith, eqb_ℤ-sound id x e)
  | inr e ↦ ground arith
]

has_id-add_ids :
    (id : TelegramId) (set ids : List TelegramId)
    → has_id id (add_ids set ids) ≡ (has_id id set || (is_valid_id id && has_id id ids))
unfolding add_ids
has_id-add_ids id set [] = ground arith
has_id-add_ids id set (x ∷ ids) =
    ground (arith, has_id-added id x set, has_id-add_ids id (added x set) ids)

-- The early return for an empty set changes nothing.
has_id_nonempty :
    (id : TelegramId) (set : List TelegramId)
    → (if length set == 0 then false else has_id id set) ≡ has_id id set
has_id_nonempty id [] = refl
has_id_nonempty id (x ∷ set) = ground arith

-- The allowlist admits exactly the configured ids that are positive; so with nothing configured it
-- admits nobody.
pub allows_exactly :
    (ids : List TelegramId) (id : TelegramId)
    → allows (new_allowlist ids) id ≡ (is_valid_id id && has_id id ids)
unfolding allows new_allowlist
allows_exactly ids id = has_id_nonempty id (add_ids [] ids) ∙ has_id-add_ids id [] ids
