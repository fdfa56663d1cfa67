-- ===== src/Config/Bounds.antt =====
-- What holds of a configuration that `Load` returns.
use hoodalpha.Prelude.{
  ◌==◌, length, All, ℕ, ◌≤◌, String, ◌≡◌, refl, subst, ◌≢◌, ◌⊎◌, inl, inr, Bool, true, false, not,
  ◌&&◌, ◌||◌, List, [], ◌∷◌, arith,
}
use hoodalpha.Prelude.Int.{ℤ, pos, ◌≤ℤ◌}
use hoodalpha.Go.Text.{Text, text_eq_iff, text_eq}
use hoodalpha.Go.Error.{Result, ok, err}
use hoodalpha.Go.Float.{Float, nan, minus_infinity, plus_infinity, finite, literal, flt, fle}
use hoodalpha.Config.{Config, enabled, join_all, complaints, config_checks, validate_config}
use hoodalpha.Config.Env.{Environment}
use hoodalpha.Config.Load.{read_config, load}

complaints_none :
    (tests : List (Bool × String))
    → join_all (complaints tests) ≡ ok tt
    → All (λ t. t.0 ≡ false) tests
unfolding complaints join_all
complaints_none [] h = tt
complaints_none ((false, text) ∷ rest) h = (refl, complaints_none rest h)
complaints_none ((true, text) ∷ rest) h = cc

-- Every test of `validate` failed.
pub validate_config_ok :
    (c : Config) → validate_config c ≡ ok tt → All (λ t. t.0 ≡ false) (config_checks c)
unfolding validate_config
validate_config_ok c h = complaints_none (config_checks c) h

-- A result behind two tests.
behind_both :
    {A : Type 0} (r q : Result Unit) (a c : A)
    → elim r [ err e ↦ err e | ok _ ↦ elim q [ err e ↦ err e | ok _ ↦ ok a ] ] ≡ ok c
    → (r ≡ ok tt) × (a ≡ c) × (q ≡ ok tt)
behind_both (err e) q a c h = ground arith
behind_both (ok _) (err e) a c h = ground arith
behind_both (ok _) (ok _) a c h = (refl, ground arith, refl)

-- A configuration is returned only without an error in any field, and as it passed `validate`.
pub load_ok :
    (env : Environment) (c : Config)
    → load env ≡ ok c
    → (join_all (read_config env).1 ≡ ok tt)
      × ((read_config env).0 ≡ c)
      × (validate_config (read_config env).0 ≡ ok tt)
unfolding load
load_ok env c h =
    behind_both (join_all (read_config env).1) (validate_config (read_config env).0)
      (read_config env).0 c h

text_eq_empty : (t : Text) → text_eq t [] ≡ false → t ≢ []
text_eq_empty t h e = ground (arith, text_eq_iff t [])

-- The settings that a start depends on.
abbrev pub IsBounded : Config → Type 0
IsBounded c =
    (c.postgres.url ≢ [])
    × (c.chain.rpc_url ≢ [])
    × (c.chain.chain_id ≢ 0)
    × (c.redis.addr ≢ [])
    × (pos 1 ≤ℤ c.postgres.max_conns)
    × (pos 0 ≤ℤ c.postgres.min_conns)
    × (c.postgres.min_conns ≤ℤ c.postgres.max_conns)
    × (pos 1 ≤ℤ c.worker.concurrency)
    × (pos 0 ≤ℤ c.chain.max_retries)
    × (pos 1 ≤ℤ c.chain.request_timeout)
    × (pos 1 ≤ℤ c.risk.max_open_positions)
    × (pos 0 ≤ℤ c.risk.max_slippage_bps)
    × (c.risk.max_slippage_bps ≤ℤ pos 10000)
    × ((c.telegram.bot_token ≡ []) ⊎ (1 ≤ length c.telegram.allowed_user_ids))
    × (pos 1 ≤ℤ c.telegram.initdata_ttl)
    × (pos 1 ≤ℤ c.telegram.rate_limit)
    × ((c.risk.stop_loss_percent ≡ nan)
        ⊎ ((flt (literal 0) c.risk.stop_loss_percent ≡ true)
            × (flt c.risk.stop_loss_percent (literal 100) ≡ true)))
    × ((c.risk.capital_recovery_percent ≡ nan)
        ⊎ (flt (literal 0) c.risk.capital_recovery_percent ≡ true))

someone :
    (token : Text) (ids : List ℤ)
    → (not (text_eq token []) && length ids == 0) ≡ false
    → (token ≡ []) ⊎ (1 ≤ length ids)
unfolding text_eq
someone [] ids h = inl refl
someone (x ∷ token) ids h = inr (ground arith)

number_between :
    (m n : ℕ) (x : Float)
    → (fle x (literal m) || fle (literal n) x) ≡ false
    → (x ≡ nan) ⊎ ((flt (literal m) x ≡ true) × (flt x (literal n) ≡ true))
unfolding literal flt fle
number_between m n nan h = inl refl
number_between m n minus_infinity h = absurd (ground arith)
number_between m n plus_infinity h = absurd (ground arith)
number_between m n (finite a) h = inr (ground arith)

number_above :
    (m : ℕ) (x : Float) → fle x (literal m) ≡ false → (x ≡ nan) ⊎ (flt (literal m) x ≡ true)
unfolding literal flt fle
number_above m nan h = inl refl
number_above m minus_infinity h = absurd (ground arith)
number_above m plus_infinity h = inr refl
number_above m (finite a) h = inr (ground arith)

bounded : (c : Config) → All (λ t. t.0 ≡ false) (config_checks c) → IsBounded c
unfolding enabled
bounded c
      (
        url,
        (
          rpc,
          (
            id,
            (
              addr,
              (
                most,
                (
                  least,
                  (
                    workers,
                    (
                      retries,
                      (
                        timeout,
                        (loss, (recovery, (positions, (slippage, (allowed, (ttl, (rate, _))))))),
                      ),
                    ),
                  ),
                ),
              ),
            ),
          ),
        ),
      ) =
    (
      text_eq_empty c.postgres.url url,
      text_eq_empty c.chain.rpc_url rpc,
      ground arith,
      text_eq_empty c.redis.addr addr,
      ground arith,
      ground arith,
      ground arith,
      ground arith,
      ground arith,
      ground arith,
      ground arith,
      ground arith,
      ground arith,
      someone c.telegram.bot_token c.telegram.allowed_user_ids allowed,
      ground arith,
      ground arith,
      number_between 0 100 c.risk.stop_loss_percent loss,
      number_above 0 c.risk.capital_recovery_percent recovery,
    )

-- A configuration that `Load` returns names its three stores and its network, keeps the pool, the
-- workers, the retries, the time limits and the limits of risk that it tests within their ranges, and has
-- somebody on the allowlist where it has a bot token. Stop-loss and capital recovery are not tested where
-- they are no number.
pub load-IsBounded : (env : Environment) (c : Config) → load env ≡ ok c → IsBounded c
load-IsBounded env c h =
    let (_, e, v) = load_ok env c h in
    subst IsBounded e (bounded (read_config env).0 (validate_config_ok (read_config env).0 v))
