-- ===== src/Domain/Wallet.antt =====
-- internal/domain/wallet.go: wallets, their roles, and the state machine of their status.
pub mod Lifecycle
use hoodalpha.Prelude.{◌==◌, if◌then◌else◌, ℕ, Bool, true, false, not, ◌||◌, Option, none, [], ◌++◌}
use hoodalpha.Go.Text.{Text, codes, text_eq}
use hoodalpha.Go.Error.{
  wallet_not_owned, wallet_already_linked, Error, variable, new, Result, ok, err,
}
use hoodalpha.Go.Time.{Time, zero_time}
use hoodalpha.Domain.Address.{Address, quote, parse_address, is_zero_address}
use hoodalpha.Domain.User.{AccountId}

abbrev pub err_wallet_not_owned : Error
err_wallet_not_owned = variable wallet_not_owned (codes "wallet not owned by user")

abbrev pub err_wallet_already_linked : Error
err_wallet_already_linked = variable wallet_already_linked (codes "wallet already linked")

-- `WalletRole`: any text can come from a request.
pub data WalletRole : Type 0 where
  owner bot : WalletRole
  other_role : Text → WalletRole

-- `WalletRole.Valid`
unfoldable pub is_valid_role : WalletRole → Bool
is_valid_role (other_role _) = false
is_valid_role _ = true

abbrev pub is_bot_role : WalletRole → Bool
is_bot_role bot = true
is_bot_role _ = false

abbrev pub role_text : WalletRole → Text
role_text owner = codes "owner"
role_text bot = codes "bot"
role_text (other_role t) = t

-- `WalletStatus`: any text can come from the database.
pub data WalletStatus : Type 0 where
  pending active disabled : WalletStatus
  other_status : Text → WalletStatus

-- `s == t` on statuses.
unfoldable pub same_status : WalletStatus → WalletStatus → Bool
same_status pending pending = true
same_status active active = true
same_status disabled disabled = true
same_status (other_status s) (other_status t) = text_eq s t
same_status _ _ = false

-- `WalletStatus.Valid`
unfoldable pub is_valid_status : WalletStatus → Bool
is_valid_status (other_status _) = false
is_valid_status _ = true

abbrev pub status_text : WalletStatus → Text
status_text pending = codes "pending"
status_text active = codes "active"
status_text disabled = codes "disabled"
status_text (other_status t) = t

-- `CanTransitionTo`
unfoldable pub can_transition_to : WalletStatus → WalletStatus → Bool
unfolding same_status
can_transition_to pending next = same_status next active || same_status next disabled
can_transition_to active next = same_status next disabled
can_transition_to disabled next = same_status next pending
can_transition_to (other_status _) next = false

-- `Wallet`
pub record Wallet : Type 0 where
  pub id : Text
  pub user_id : AccountId
  pub address : Address
  pub chain_id : ℕ
  pub role : WalletRole
  pub status : WalletStatus
  pub label : Text
  pub verified_at : Option Time
  pub created_at : Time
  pub updated_at : Time

-- What `NewWallet` returns when every check has passed.
abbrev pub pending_wallet : AccountId → Address → ℕ → WalletRole → Text → Wallet
pending_wallet user_id address chain_id role label = record {
  id = [];
  user_id = user_id;
  address = address;
  chain_id = chain_id;
  role = role;
  status = pending;
  label = label;
  verified_at = none;
  created_at = zero_time;
  updated_at = zero_time;
}

-- The checks of `NewWallet` behind the address.
wallet_of : AccountId → ℕ → WalletRole → Text → Result Address → Result Wallet
wallet_of user_id chain_id role label (err e) = err e
wallet_of user_id chain_id role label (ok address) =
    if is_zero_address address
    then err (new (codes "refusing to link the zero address"))
    else if text_eq user_id []
    then err (new (codes "user id is required"))
    else if chain_id == 0
    then err (new (codes "chain id is required"))
    else if not (is_valid_role role)
    then err (new (codes "invalid wallet role " ++ quote (role_text role)))
    else ok (pending_wallet user_id address chain_id role label)

-- `NewWallet`
unfoldable pub new_wallet : AccountId → Text → ℕ → WalletRole → Text → Result Wallet
unfolding wallet_of
new_wallet user_id address chain_id role label =
    wallet_of user_id chain_id role label (parse_address address)

-- `IsUsable`
unfoldable pub is_usable : Wallet → Bool
unfolding same_status
is_usable w = same_status w.status active
