-- ===== src/Domain/Policy.antt =====
-- `WalletPolicy` of internal/domain/wallet.go: the limits of a wallet and the check on them.
pub mod Bounds
use hoodalpha.Prelude.{if◌then◌else◌, String, Bool, ◌||◌, List, [], ◌∷◌, ◌++◌}
use hoodalpha.Prelude.Int.{ℤ, pos, ltb_ℤ}
use hoodalpha.Go.Text.{Text, codes}
use hoodalpha.Go.Error.{new, Result, ok, err}
use hoodalpha.Go.Time.{Time}
use hoodalpha.Go.Float.{Float, literal, flt, fle}

-- `WalletPolicy`
pub record WalletPolicy : Type 0 where
  pub id : Text
  pub wallet_id : Text
  pub max_position_percent : Float
  pub max_open_positions : ℤ
  pub daily_loss_limit_percent : Float
  pub stop_loss_percent : Float
  pub capital_recovery_percent : Float
  pub max_slippage_bps : ℤ
  pub min_liquidity_usd : Float
  pub trading_enabled : Bool
  pub created_at : Time
  pub updated_at : Time

-- One entry of `errs` where a test holds.
abbrev pub complaint : Bool → String → List Text
complaint c text = if c then codes text ∷ [] else []

-- The seven tests of `Validate`.
abbrev pub bad_position : WalletPolicy → Bool
bad_position p = fle p.max_position_percent (literal 0) || flt (literal 100) p.max_position_percent

abbrev pub bad_positions : WalletPolicy → Bool
bad_positions p = ltb_ℤ p.max_open_positions (pos 1)

abbrev pub bad_daily_loss : WalletPolicy → Bool
bad_daily_loss p =
    fle p.daily_loss_limit_percent (literal 0) || flt (literal 100) p.daily_loss_limit_percent

abbrev pub bad_stop_loss : WalletPolicy → Bool
bad_stop_loss p = fle p.stop_loss_percent (literal 0) || fle (literal 100) p.stop_loss_percent

abbrev pub bad_recovery : WalletPolicy → Bool
bad_recovery p = fle p.capital_recovery_percent (literal 0)

abbrev pub bad_slippage : WalletPolicy → Bool
bad_slippage p = ltb_ℤ p.max_slippage_bps (pos 0) || ltb_ℤ (pos 10000) p.max_slippage_bps

abbrev pub bad_liquidity : WalletPolicy → Bool
bad_liquidity p = flt p.min_liquidity_usd (literal 0)

-- The errors of the tests that hold, in the order of the source.
problems : WalletPolicy → List Text
problems p =
    complaint (bad_position p) "max_position_percent must be in (0,100]"
    ++ complaint (bad_positions p) "max_open_positions must be >= 1"
    ++ complaint (bad_daily_loss p) "daily_loss_limit_percent must be in (0,100]"
    ++ complaint (bad_stop_loss p) "stop_loss_percent must be in (0,100)"
    ++ complaint (bad_recovery p) "capital_recovery_percent must be > 0"
    ++ complaint (bad_slippage p) "max_slippage_bps must be in [0,10000]"
    ++ complaint (bad_liquidity p) "min_liquidity_usd must be >= 0"

-- The text of `errors.Join` on errors with these texts.
join_lines : List Text → Text
join_lines [] = []
join_lines (t ∷ []) = t
join_lines (t ∷ u ∷ ts) = t ++ codes "\n" ++ join_lines (u ∷ ts)

-- `errors.Join`, which is nil for no errors.
join_errors : List Text → Result Unit
unfolding join_lines
join_errors [] = ok tt
join_errors (t ∷ ts) = err (new (join_lines (t ∷ ts)))

-- `Validate`
unfoldable pub validate : WalletPolicy → Result Unit
unfolding problems join_errors
validate p = join_errors (problems p)
