-- ===== src/Examples/Settings.antt =====
-- The configuration of a process, on a small environment.
use hoodalpha.Prelude.{◌≡◌, refl, true, false, not, ◌||◌, Option, none, some, List, [], ◌∷◌}
use hoodalpha.Prelude.Int.{pos, to_word64, to_int32}
use hoodalpha.Go.Text.{
  Text, codes, text_eq, is_space, trim_space, split, decimal, decimal_ℤ, parse_int64, parse_uint64,
}
use hoodalpha.Go.Error.{new, ok, err, is_ok}
use hoodalpha.Go.Float.{units, literal, flt, fle}
use hoodalpha.Domain.User.{has_id, new_allowlist, allows}
use hoodalpha.Domain.Policy.{bad_position, bad_daily_loss, bad_liquidity, validate}
use hoodalpha.Config.{Config, enabled, join_all, complaints, validate_config}
use hoodalpha.Config.Env.{
  Environment, parse_bool, parts_of, read_ids, get_string, getenv, get_int, get_int32, get_uint,
  get_float, get_bool, get_int64_list, get_duration,
}
use hoodalpha.Config.Load.{
  load_chain, load_postgres, load_redis, load_worker, load_risk, load_telegram, read_config, load,
}
use hoodalpha.Config.Bounds.{IsBounded, load-IsBounded}
use hoodalpha.Config.Allowed.{to_telegram_ids, load-allows}
use hoodalpha.Config.Limits.{default_policy, default_policy_valid}
use hoodalpha.Domain.Address.{quote}

abbrev pub found_in : List (Text × Text) → Text → Option Text
found_in [] key = none
found_in ((k, v) ∷ rest) key = elim (text_eq k key) [ true ↦ some v | false ↦ found_in rest key ]

-- A database, two allowed users, and a limit on the position that no wallet may have.
abbrev variables : List (Text × Text)
variables =
    (codes "POSTGRES_URL", codes "postgres://db")
    ∷ (codes "TELEGRAM_ALLOWED_USER_IDS", codes "7, 12")
    ∷ (codes "MAX_POSITION_PERCENT", codes "150")
    ∷ []

abbrev pub small_env : Environment
small_env = record {
  lookup_env = found_in variables;
  parse_float = λ _. ok (literal 150);
  parse_duration = λ _. err (new []);
  num_error = λ _ v. new v;
}

loaded : (c : Config) × (load small_env ≡ ok c)
unfolding load join_all read_config get_bool text_eq codes get_duration load_chain get_uint get_int
    load_postgres get_int32 load_redis load_worker load_risk get_float load_telegram get_int64_list
    get_string getenv parse_bool parts_of read_ids complaints enabled validate_config quote fle
    literal units decimal decimal_ℤ parse_int64 parse_uint64 split is_space trim_space to_int32
    to_word64
loaded = (_, refl)

load-IsBounded_example : IsBounded loaded.0
load-IsBounded_example = load-IsBounded small_env loaded.0 loaded.1

load-allows_example :
    allows (new_allowlist (to_telegram_ids loaded.0.telegram.allowed_user_ids)) (pos 12)
    ≡ has_id (pos 12) loaded.0.telegram.allowed_user_ids
load-allows_example = load-allows small_env loaded.0 (pos 12) loaded.1

default_policy_valid_example :
    is_ok (validate (default_policy loaded.0))
    ≡ not (
        bad_position (default_policy loaded.0)
        || bad_daily_loss (default_policy loaded.0)
        || bad_liquidity (default_policy loaded.0))
default_policy_valid_example = default_policy_valid small_env loaded.0 loaded.1

-- The configuration is accepted, and every wallet linked with it is refused.
accepted_and_useless : is_ok (validate (default_policy loaded.0)) ≡ false
unfolding validate fle default_policy loaded flt
accepted_and_useless = refl

-- A pool size of 2^32 + 1 is read as 1.
wrapped_pool : to_int32 (pos 4_294_967_297) ≡ pos 1
unfolding to_int32 to_word64
wrapped_pool = refl
