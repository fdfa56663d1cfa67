-- ===== src/Config/Limits.antt =====
-- `defaultPolicy` of the three commands: the limits that a new wallet starts with.
use hoodalpha.Prelude.{All, ◌≡◌, ◌∙◌, subst, Bool, false, not, ◌||◌, [], arith}
use hoodalpha.Go.Error.{ok, is_ok}
use hoodalpha.Go.Time.{zero_time}
use hoodalpha.Domain.Policy.{WalletPolicy, bad_position, bad_daily_loss, bad_liquidity, validate}
use hoodalpha.Domain.Policy.Bounds.{is_ok-validate}
use hoodalpha.Config.{Config, config_checks}
use hoodalpha.Config.Env.{Environment}
use hoodalpha.Config.Load.{read_config, load}
use hoodalpha.Config.Bounds.{validate_config_ok, load_ok}

-- `defaultPolicy`
unfoldable pub default_policy : Config → WalletPolicy
default_policy c = record {
  id = [];
  wallet_id = [];
  max_position_percent = c.risk.max_position_percent;
  max_open_positions = c.risk.max_open_positions;
  daily_loss_limit_percent = c.risk.daily_loss_limit_percent;
  stop_loss_percent = c.risk.stop_loss_percent;
  capital_recovery_percent = c.risk.capital_recovery_percent;
  max_slippage_bps = c.risk.max_slippage_bps;
  min_liquidity_usd = c.risk.min_liquidity_usd;
  trading_enabled = false;
  created_at = zero_time;
  updated_at = zero_time;
}

checked_policy :
    (c : Config)
    → All (λ t. t.0 ≡ false) (config_checks c)
    → is_ok (validate (default_policy c))
      ≡ not (
          bad_position (default_policy c)
          || bad_daily_loss (default_policy c)
          || bad_liquidity (default_policy c))
unfolding default_policy
checked_policy c
      (_, (_, (_, (_, (_, (_, (_, (_, (_, (stop, (recovery, (positions, (slippage, _))))))))))))) =
    let p = default_policy c in
    is_ok-validate p
    ∙ four (bad_position p) (bad_daily_loss p) (bad_liquidity p) stop recovery positions slippage
  where
    four :
        (a f g : Bool) {b c d e : Bool}
        → c ≡ false
        → d ≡ false
        → b ≡ false
        → e ≡ false
        → not (a || b || f || c || d || e || g) ≡ not (a || f || g)
    four a f g h k l m = ground arith

-- `Load` tests four of the seven limits of a wallet: the policy that new wallets are linked with is
-- valid exactly if the other three hold, on the position, the daily loss and the liquidity.
pub default_policy_valid :
    (env : Environment) (c : Config)
    → load env ≡ ok c
    → is_ok (validate (default_policy c))
      ≡ not (
          bad_position (default_policy c)
          || bad_daily_loss (default_policy c)
          || bad_liquidity (default_policy c))
default_policy_valid env c h =
    let (_, e, v) = load_ok env c h in
    checked_policy c (
      subst (λ (c : Config). All (λ t. t.0 ≡ false) (config_checks c)) e
        (validate_config_ok (read_config env).0 v))
