-- ===== src/Domain/Wallet/Lifecycle.antt =====
-- The state machine of a wallet's status, and what a new wallet is.
use hoodalpha.Prelude.{ℕ, ◌≡◌, refl, ◌≢◌, ◌↔◌, true, false, [], arith}
use hoodalpha.Go.Text.{Text, text_eq_iff}
use hoodalpha.Go.Error.{ok}
use hoodalpha.Domain.Address.{Address, parse_address, is_zero_address}
use hoodalpha.Domain.User.{AccountId}
use hoodalpha.Domain.Wallet.{
  WalletRole, is_valid_role, WalletStatus, pending, active, disabled, other_status,
  can_transition_to, Wallet, pending_wallet, new_wallet,
}

-- The arrows of the diagram above `WalletStatus`, with the return from disabled to pending.
pub data Step : WalletStatus → WalletStatus → Type 0 where
  verify : Step pending active
  refuse : Step pending disabled
  disable : Step active disabled
  reopen : Step disabled pending

Step-can_transition_to : {s t : WalletStatus} → Step s t → can_transition_to s t ≡ true
unfolding can_transition_to
Step-can_transition_to verify = refl
Step-can_transition_to refuse = refl
Step-can_transition_to disable = refl
Step-can_transition_to reopen = refl

can_transition_to-Step : (s t : WalletStatus) → can_transition_to s t ≡ true → Step s t
unfolding can_transition_to
can_transition_to-Step pending pending h = cc
can_transition_to-Step pending active h = verify
can_transition_to-Step pending disabled h = refuse
can_transition_to-Step pending (other_status x) h = cc
can_transition_to-Step active pending h = cc
can_transition_to-Step active active h = cc
can_transition_to-Step active disabled h = disable
can_transition_to-Step active (other_status x) h = cc
can_transition_to-Step disabled pending h = reopen
can_transition_to-Step disabled active h = cc
can_transition_to-Step disabled disabled h = cc
can_transition_to-Step disabled (other_status x) h = cc
can_transition_to-Step (other_status y) t h = cc

-- `CanTransitionTo` allows exactly four steps: pending to active, pending to disabled, active to disabled
-- and disabled to pending.
can_transition_to_exactly : (s t : WalletStatus) → (can_transition_to s t ≡ true) ↔ Step s t
can_transition_to_exactly s t = (can_transition_to-Step s t, Step-can_transition_to)

-- Whether `NewWallet` accepts its arguments.
abbrev pub IsLinkable : AccountId → Text → ℕ → WalletRole → Address → Type 0
IsLinkable user_id address chain_id role a =
    (parse_address address ≡ ok a)
    × (is_zero_address a ≡ false)
    × (user_id ≢ [])
    × (chain_id ≢ 0)
    × (is_valid_role role ≡ true)

-- `NewWallet` returns a wallet exactly if the address parses to one that is not the zero address,
-- the account and the chain are given, and the role is known. The wallet is then pending, was never
-- verified, and has the canonical address.
pub new_wallet_exactly :
    (user_id : AccountId) (address : Text) (chain_id : ℕ) (role : WalletRole) (label : Text)
    (w : Wallet)
    → (new_wallet user_id address chain_id role label ≡ ok w) ↔ (
        IsLinkable user_id address chain_id role w.address
        × (w ≡ pending_wallet user_id w.address chain_id role label))
unfolding new_wallet
new_wallet_exactly user_id address chain_id role label w =
    (λ h. ground (arith, text_eq_iff user_id []), λ h. ground (arith, text_eq_iff user_id []))
