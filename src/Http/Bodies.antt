-- ===== src/Http/Bodies.antt =====
-- The JSON bodies of internal/httpapi, and the text of a number in miniapp.go.
use hoodalpha.Prelude.{
  if◌then◌else◌, ℕ, zero, suc, Bool, true, false, not, ◌||◌, none, some, List, [], ◌∷◌,
}
use hoodalpha.Prelude.Int.{ℤ, pos, negsuc, ◌-ℤ◌, ltb_ℤ, eqb_ℤ, to_int64, to_word64}
use hoodalpha.Go.Text.{Text, codes, text_eq, decimal}
use hoodalpha.Go.Time.{Time}
use hoodalpha.Go.Float.{Float}
use hoodalpha.Domain.Chain.{chain_name}
use hoodalpha.Domain.Wei.{Wei, big_int, is_zero_wei, ether}
use hoodalpha.Domain.User.{display_name}
use hoodalpha.Domain.Wallet.{role_text, status_text, Wallet, is_usable}
use hoodalpha.Domain.Policy.{WalletPolicy}
use hoodalpha.App.Onboarding.{Identity}
use hoodalpha.App.Health.{itoa}
use hoodalpha.App.Wallets.{WalletView}

-- A body, with the fields of an object in the order in which the code writes them.
mutual
  pub data Json : Type 0 where
    string : Text → Json
    integer : ℤ → Json
    real : Float → Json
    boolean : Bool → Json
    items : Items → Json
    object : Fields → Json

  pub data Items : Type 0 where
    no_items : Items
    item : Json → Items → Items

  pub data Fields : Type 0 where
    no_fields : Fields
    field : Text → Json → Fields → Fields

-- The digits that the loop of `itoa64` writes.
abbrev pub digits64 : ℤ → Text
digits64 (pos zero) = []
digits64 (pos (suc n)) = itoa (suc n)
digits64 (negsuc n) = []

-- `itoa64`: `-v` of the least `int64` is negative again, and then the loop writes no digit.
unfoldable pub itoa64 : ℤ → Text
itoa64 v =
    if eqb_ℤ v (pos 0)
    then codes "0"
    else if ltb_ℤ v (pos 0)
    then b'-' ∷ digits64 (to_int64 (to_word64 (pos 0 -ℤ v)))
    else digits64 v

-- The body of `writeError`.
abbrev pub error_body : Text → Json
error_body text = object (field (codes "error") (string text) no_fields)

-- `policyJSON`
unfoldable pub policy_json : WalletPolicy → Json
policy_json p = object (
    field (codes "max_position_percent") (real p.max_position_percent) (
      field (codes "max_open_positions") (integer p.max_open_positions) (
        field (codes "daily_loss_limit_percent") (real p.daily_loss_limit_percent) (
          field (codes "stop_loss_percent") (real p.stop_loss_percent) (
            field (codes "capital_recovery_percent") (real p.capital_recovery_percent) (
              field (codes "max_slippage_bps") (integer p.max_slippage_bps) (
                field (codes "min_liquidity_usd") (real p.min_liquidity_usd)
                  (field (codes "trading_enabled") (boolean p.trading_enabled) no_fields))))))))

-- The balance of a view: the zero value where it could not be read.
abbrev pub balance_of : WalletView → Wei
balance_of v = elim v.balance [ none ↦ record { i = none } | some w ↦ w ]

-- The `policy` field of `walletJSON`, which a policy without a wallet does not write.
abbrev pub policy_field : WalletView → Fields
policy_field v = elim v.policy [
  | none ↦ no_fields
  | some p ↦
      if text_eq p.wallet_id [] then no_fields else field (codes "policy") (policy_json p) no_fields
]

-- The fields of `walletJSON` on the balance, before the others.
unfoldable pub balance_fields : WalletView → Fields → Fields
balance_fields v rest =
    if not (text_eq v.balance_error [])
    then field (codes "balance_available") (boolean false) rest
    else if not (is_zero_wei (balance_of v)) || is_usable v.wallet
    then field (codes "balance_available") (boolean true) (
        field (codes "balance_wei") (string (decimal (big_int (balance_of v))))
          (field (codes "balance_eth") (string (ether (balance_of v))) rest))
    else rest

module _ (rfc3339 : Time → Text) where
  -- The `verified_at` field of `walletJSON`.
  abbrev pub verified_field : Wallet → Fields → Fields
  verified_field w rest = elim w.verified_at [
    | none ↦ rest
    | some at ↦ field (codes "verified_at") (string (rfc3339 at)) rest
  ]

  -- `walletJSON`
  unfoldable pub wallet_json : WalletView → Json
  unfolding balance_fields
  wallet_json v =
      let w = v.wallet in
      object (
        field (codes "id") (string w.id) (
          field (codes "address") (string w.address) (
            field (codes "chain_id") (integer (pos w.chain_id)) (
              field (codes "chain_name") (string (chain_name w.chain_id)) (
                field (codes "role") (string (role_text w.role)) (
                  field (codes "status") (string (status_text w.status)) (
                    field (codes "label") (string w.label) (
                      field (codes "created_at") (string (rfc3339 w.created_at))
                        (verified_field w (balance_fields v (policy_field v)))))))))))

  -- The loop over the wallets of an account.
  unfoldable pub wallets_json : List WalletView → Items
  unfolding wallet_json
  wallets_json [] = no_items
  wallets_json (v ∷ vs) = item (wallet_json v) (wallets_json vs)

-- The body of the route `/auth`.
unfoldable pub session_json : ℕ → Identity → Json
session_json chain_id id = object (
    field (codes "user_id") (string id.user.id) (
      field (codes "telegram_id") (integer id.telegram.telegram_id) (
        field (codes "display_name") (string (display_name id.telegram)) (
          field (codes "first_contact") (boolean id.first_contact) (
            field (codes "chain_id") (integer (pos chain_id)) (
              field (codes "chain_name") (string (chain_name chain_id))
                (field (codes "trading_available") (boolean false) no_fields)))))))
