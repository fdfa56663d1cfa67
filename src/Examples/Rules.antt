-- ===== src/Examples/Rules.antt =====
-- The rules of internal/domain and the health check on small inputs.
use hoodalpha.Prelude.{ℕ, ◌≡◌, refl, ◌≢◌, ◌↔◌, false, none, some, [], arith}
use hoodalpha.Prelude.Int.{pos}
use hoodalpha.Go.Text.{Text, codes, is_space, trim_space, lower, to_lower, is_hex_digit}
use hoodalpha.Go.Error.{new, ok}
use hoodalpha.Go.Exec.{pure, fail}
use hoodalpha.Go.Time.{Time, minute}
use hoodalpha.Go.Float.{nan, units, literal, flt, fle}
use hoodalpha.Domain.Address.{matches_hex, parse_address}
use hoodalpha.Domain.Address.Canonical.{parse_address_canonical}
use hoodalpha.Domain.Chain.{mainnet, testnet}
use hoodalpha.Domain.Policy.{WalletPolicy, validate}
use hoodalpha.Domain.Policy.Bounds.{IsBounded, HasNumbers, validate_exactly, validate-nan}
use hoodalpha.App.ChainSync.{ChainProbe}
use hoodalpha.App.Health.{HealthChecker}

abbrev pub mixed_case : Text
mixed_case = codes "0xABCDEF0000000000000000000000000000000001"

abbrev pub lower_case : Text
lower_case = codes "0xabcdef0000000000000000000000000000000001"

parse_address_canonical_example :
    (lower_case ≡ lower_case) × (parse_address lower_case ≡ ok lower_case)
unfolding parse_address to_lower lower trim_space is_space matches_hex is_hex_digit codes
parse_address_canonical_example =
    parse_address_canonical mixed_case lower_case lower_case lower_case refl refl refl

-- The limits of the example configuration.
abbrev pub limits : WalletPolicy
limits = record {
  id = [];
  wallet_id = [];
  max_position_percent = literal 10;
  max_open_positions = pos 5;
  daily_loss_limit_percent = literal 15;
  stop_loss_percent = literal 35;
  capital_recovery_percent = literal 100;
  max_slippage_bps = pos 300;
  min_liquidity_usd = literal 50000;
  trading_enabled = false;
  created_at = pos 0;
  updated_at = pos 0;
}

not_nan : (n : ℕ) → literal n ≢ nan
unfolding literal
not_nan n e = ground arith

limits-HasNumbers : HasNumbers limits
limits-HasNumbers = record {
  position = not_nan 10;
  daily_loss = not_nan 15;
  stop_loss = not_nan 35;
  recovery = not_nan 100;
  liquidity = not_nan 50000;
}

validate_exactly_example : (validate limits ≡ ok tt) ↔ IsBounded limits
validate_exactly_example = validate_exactly limits limits-HasNumbers

pub limits_valid : validate limits ≡ ok tt
unfolding validate literal units flt fle codes
limits_valid = refl

validate-nan_example :
    (validate (record limits { stop_loss_percent = nan }) ≡ ok tt)
    × (validate (record limits { max_position_percent = nan }) ≡ ok tt)
    × (validate (record limits { daily_loss_limit_percent = nan }) ≡ ok tt)
    × (validate (record limits { capital_recovery_percent = nan }) ≡ ok tt)
    × (validate (record limits { min_liquidity_usd = nan }) ≡ ok tt)
validate-nan_example = validate-nan limits limits_valid

-- A node of the test network behind a checker that expects the main network.
abbrev pub test_node : ChainProbe Time
test_node = record { chain_id = pure testnet; latest_block = fail (new []) }

abbrev pub checker : HealthChecker Time
checker = record {
  postgres = some (pure tt);
  redis = none;
  chain = some test_node;
  head = none;
  expected_chain = mainnet;
  stale_after = pos minute;
  version = [];
  now = λ t. t;
  rfc3339 = λ _. [];
}
