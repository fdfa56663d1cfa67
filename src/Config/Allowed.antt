-- ===== src/Config/Allowed.antt =====
-- The allowlist of the configuration, from its text to whom it admits.
use hoodalpha.Prelude.{
  Bool-cases, Option-cases, All, ◌≡◌, refl, ap, ◌∙◌, subst, inl, inr, true, some, List, [], ◌∷◌,
  map, arith,
}
use hoodalpha.Prelude.Int.{ℤ, pos, ◌≤ℤ◌, leb_ℤ}
use hoodalpha.Go.Text.{Text, text_eq, trim_space, parse_int64}
use hoodalpha.Go.Error.{Result, ok, err, Result-cases}
use hoodalpha.Domain.User.{TelegramId, is_valid_id, has_id, new_allowlist, allows}
use hoodalpha.Domain.User.Allowed.{allows_exactly}
use hoodalpha.Config.{Config}
use hoodalpha.Config.Env.{Environment, parts_of, read_ids, get_int64_list}
use hoodalpha.Config.Load.{or_zero, read_allowed, load_telegram, read_config, load}
use hoodalpha.Config.Bounds.{load_ok}

-- `toTelegramIDs` of the three commands: the same numbers under another type.
unfoldable pub to_telegram_ids : List ℤ → List TelegramId
to_telegram_ids [] = []
to_telegram_ids (id ∷ ids) = id ∷ to_telegram_ids ids

to_telegram_ids_same : (ids : List ℤ) → to_telegram_ids ids ≡ ids
unfolding to_telegram_ids
to_telegram_ids_same [] = refl
to_telegram_ids_same (id ∷ ids) = ap (λ rest. id ∷ rest) (to_telegram_ids_same ids)

abbrev pub IsPositive : ℤ → Type 0
IsPositive n = pos 1 ≤ℤ n

-- A list of identifiers is read whole or not at all: each part is the text of one identifier, in
-- order, and all are positive.
read_ids_exactly :
    (key : Text) (parts : List Text) (ids : List ℤ)
    → read_ids key parts ≡ ok ids
    → (map parse_int64 parts ≡ map some ids) × All IsPositive ids
unfolding read_ids
read_ids_exactly key [] [] h = (refl, tt)
read_ids_exactly key [] (id ∷ ids) h = ground arith
read_ids_exactly key (part ∷ parts) ids h = elim (Option-cases (parse_int64 part)) [
  | inl e ↦ ground arith
  | inr (n, e) ↦ elim (Bool-cases (leb_ℤ n (pos 0))) [
    | inl low ↦ ground arith
    | inr high ↦ elim (Result-cases (read_ids key parts)) [
      | inr (f, r) ↦ ground arith
      | inl (rest, r) ↦
          let (texts, positive) = read_ids_exactly key parts rest r in
          let whole : ids ≡ n ∷ rest = ground arith in
          rw whole (cc (e, texts), (ground arith, positive))
    ]
  ]
]

get_int64_list-IsPositive :
    (env : Environment) (key : Text) (ids : List ℤ)
    → get_int64_list env key ≡ ok ids
    → All IsPositive ids
unfolding get_int64_list
get_int64_list-IsPositive env key ids h = elim (Option-cases (env.lookup_env key)) [
  | inl e ↦ none_positive ids (ground arith)
  | inr (raw, e) ↦ elim (Bool-cases (text_eq (trim_space raw) [])) [
    | inl t ↦ none_positive ids (ground arith)
    | inr t ↦ (read_ids_exactly key (parts_of raw) ids (ground arith)).1
  ]
]
  where
    none_positive : (ids : List ℤ) → ids ≡ [] → All IsPositive ids
    none_positive ids e = rw e tt

or_empty-IsPositive :
    (r : Result (List ℤ))
    → ((ids : List ℤ) → r ≡ ok ids → All IsPositive ids)
    → All IsPositive (or_zero [] r)
or_empty-IsPositive (ok ids) h = h ids refl
or_empty-IsPositive (err e) h = tt

loaded-IsPositive :
    (env : Environment) → All IsPositive (read_config env).0.telegram.allowed_user_ids
unfolding read_config load_telegram
loaded-IsPositive env = or_empty-IsPositive (read_allowed env) (get_int64_list-IsPositive env _)

has_id_positive :
    (id : ℤ) (ids : List ℤ) → All IsPositive ids → has_id id ids ≡ true → is_valid_id id ≡ true
unfolding is_valid_id
has_id_positive id [] h m = ground arith
has_id_positive id (x ∷ ids) (p, h) m = ground (arith, has_id_positive id ids h)

positive_allows :
    (ids : List ℤ) (id : TelegramId)
    → All IsPositive ids
    → allows (new_allowlist (to_telegram_ids ids)) id ≡ has_id id ids
positive_allows ids id positive = rw (to_telegram_ids_same ids) (
    allows_exactly ids id ∙ elim (Bool-cases (has_id id ids)) [
      | inl e ↦ ground (arith, has_id_positive id ids positive e)
      | inr e ↦ ground arith
    ])

-- The allowlist made of a loaded configuration admits exactly the configured identifiers.
pub load-allows :
    (env : Environment) (c : Config) (id : TelegramId)
    → load env ≡ ok c
    → allows (new_allowlist (to_telegram_ids c.telegram.allowed_user_ids)) id
      ≡ has_id id c.telegram.allowed_user_ids
load-allows env c id h =
    let (_, e, _) = load_ok env c h in
    positive_allows c.telegram.allowed_user_ids id
      (subst (λ (c : Config). All IsPositive c.telegram.allowed_user_ids) e (loaded-IsPositive env))
