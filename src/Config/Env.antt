-- ===== src/Config/Env.antt =====
-- internal/config/config.go: the functions that read a variable of the environment.
use hoodalpha.Prelude.{
  if◌then◌else◌, any, keep, ℕ, Bool, true, false, not, Option, none, some, List, [], ◌∷◌, ◌++◌, map,
}
use hoodalpha.Prelude.Int.{ℤ, pos, leb_ℤ, to_int32}
use hoodalpha.Go.Text.{
  Text, codes, text_eq, trim_space, split, decimal_ℤ, parse_int64, parse_uint64,
}
use hoodalpha.Go.Error.{Error, new, wrap, Result, ok, err}
use hoodalpha.Go.Time.{Duration}
use hoodalpha.Go.Float.{Float}
use hoodalpha.Domain.Address.{quote}

-- `os.LookupEnv`, `strconv.ParseFloat`, `time.ParseDuration`, and the error that a function of `strconv`
-- gives for a text.
pub record Environment : Type 0 where
  pub lookup_env : Text → Option Text
  pub parse_float : Text → Result Float
  pub parse_duration : Text → Result Duration
  pub num_error : Text → Text → Error

-- `strconv.ParseBool`; none for any other text.
unfoldable pub parse_bool : Text → Option Bool
parse_bool v =
    if any (text_eq v)
      (codes "1" ∷ codes "t" ∷ codes "T" ∷ codes "TRUE" ∷ codes "true" ∷ codes "True" ∷ [])
    then some true
    else if any (text_eq v)
        (codes "0" ∷ codes "f" ∷ codes "F" ∷ codes "FALSE" ∷ codes "false" ∷ codes "False" ∷ [])
    then some false
    else none

-- The parts of a list of identifiers, without the space around them and without the empty ones.
unfoldable pub parts_of : Text → List Text
parts_of raw = keep (λ part. not (text_eq part [])) (map trim_space (split b',' raw))

-- The loop of `getInt64List`.
unfoldable pub read_ids : Text → List Text → Result (List ℤ)
read_ids key [] = ok []
read_ids key (part ∷ parts) = elim (parse_int64 part) [
  | none ↦ err (new (key ++ codes ": " ++ quote part ++ codes " is not a valid id"))
  | some n ↦
      let rest = read_ids key parts in
      if leb_ℤ n (pos 0)
      then err (new (key ++ codes ": id " ++ decimal_ℤ n ++ codes " must be positive"))
      else elim rest [ ok ids ↦ ok (n ∷ ids) | err e ↦ err e ]
]

module _ (env : Environment) where
  open env use {lookup_env, parse_float, parse_duration, num_error}

  -- A variable that is set and not empty.
  abbrev pub env_value : Text → Option Text
  env_value key = elim (lookup_env key) [
    | none ↦ none
    | some v ↦ if text_eq v [] then none else some v
  ]

  -- The default for a variable that is not set or empty, and otherwise what a parser makes of it.
  abbrev pub parsed : {A : Type 0} → (Text → Result A) → Text → A → Result A
  parsed parse key default = elim (env_value key) [
    | none ↦ ok default
    | some v ↦ elim (parse v) [ ok a ↦ ok a | err e ↦ err (wrap key e) ]
  ]

  -- The result of a function of `strconv`.
  abbrev pub converted : {A : Type 0} → Text → Text → Option A → Result A
  converted function v o = elim o [ none ↦ err (num_error function v) | some a ↦ ok a ]

  -- `getString`
  unfoldable pub get_string : Text → Text → Text
  get_string key default = elim (env_value key) [ none ↦ default | some v ↦ v ]

  -- `os.Getenv`
  unfoldable pub getenv : Text → Text
  getenv key = elim (lookup_env key) [ none ↦ [] | some v ↦ v ]

  -- `getInt`
  unfoldable pub get_int : Text → ℤ → Result ℤ
  get_int = parsed (λ v. converted (codes "Atoi") v (parse_int64 v))

  -- `getInt32`
  unfoldable pub get_int32 : Text → ℤ → Result ℤ
  get_int32 key default = elim (get_int key default) [ ok n ↦ ok (to_int32 n) | err e ↦ err e ]

  -- `getUint`
  unfoldable pub get_uint : Text → ℕ → Result ℕ
  get_uint = parsed (λ v. converted (codes "ParseUint") v (parse_uint64 v))

  -- `getFloat`
  unfoldable pub get_float : Text → Float → Result Float
  get_float = parsed parse_float

  -- `getBool`
  unfoldable pub get_bool : Text → Bool → Result Bool
  get_bool = parsed (λ v. converted (codes "ParseBool") v (parse_bool v))

  -- `getInt64List`
  unfoldable pub get_int64_list : Text → Result (List ℤ)
  get_int64_list key = elim (lookup_env key) [
    | none ↦ ok []
    | some raw ↦ if text_eq (trim_space raw) [] then ok [] else read_ids key (parts_of raw)
  ]

  -- `getDuration`
  unfoldable pub get_duration : Text → Duration → Result Duration
  get_duration = parsed parse_duration
