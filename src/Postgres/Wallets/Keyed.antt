-- ===== src/Postgres/Wallets/Keyed.antt =====
-- The constraints between the rows of `users`, `wallets` and `wallet_policies`.
use hoodalpha.Prelude.{any, All, Pairs, ◌≡◌, true, false, ◌&&◌, List}
use hoodalpha.Prelude.Int.{pos, leb_ℤ, to_int64}
use hoodalpha.Go.Text.{Text, text_eq}
use hoodalpha.Domain.User.{User}
use hoodalpha.Domain.Wallet.{Wallet}
use hoodalpha.Domain.Policy.{WalletPolicy}
use hoodalpha.Postgres.Tables.{Db, Postgres}
use hoodalpha.Postgres.Wallets.{has_wallet_id, is_active_bot, same_slot}
use hoodalpha.Postgres.Wallets.Consistent.{IsConsistent}
use hoodalpha.Go.Time.{Time}

abbrev pub HasOwner : List User → Wallet → Type 0
HasOwner users w = any (λ u. text_eq u.id w.user_id) users ≡ true

abbrev pub HasWallet : List Wallet → WalletPolicy → Type 0
HasWallet wallets p = any (has_wallet_id p.wallet_id) wallets ≡ true

abbrev pub OtherBot : Wallet → Wallet → Type 0
OtherBot w v = (is_active_bot w && is_active_bot v && same_slot w v) ≡ false

-- The number of the network is positive in its column, the owner of a wallet and the wallet of every limits
-- exist, and no account has two active bot wallets on one network.
pub record Keyed (users : List User) (wallets : List Wallet) (policies : List WalletPolicy)
    : Type 0 where
  pub on_chain : All (λ w. leb_ℤ (to_int64 w.chain_id) (pos 0) ≡ false) wallets
  pub owned : All (HasOwner users) wallets
  pub one_bot : Pairs OtherBot wallets
  pub used : All (HasWallet wallets) policies

abbrev pub IsValid : Db → Type 0
IsValid db = IsConsistent db × Keyed db.users db.wallets db.policies
