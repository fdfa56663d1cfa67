-- ===== src/App/Wallets/Access.antt =====
-- Who may read and change a wallet, for every store, chain, queue and audit trail.
use hoodalpha.Prelude.{Option-cases, ◌≡◌, ◌≢◌, inl, inr, arith}
use hoodalpha.Go.Text.{Text, text_eq_iff, codes}
use hoodalpha.Go.Error.{Error, wrap, message, ok, err}
use hoodalpha.Domain.User.{AccountId}
use hoodalpha.Domain.Wallet.{err_wallet_not_owned, Wallet}
use hoodalpha.Domain.Policy.{WalletPolicy, validate}
use hoodalpha.Domain.Audit.{outcome_rejected}
use hoodalpha.App.Ports.{record_audit}
use hoodalpha.App.Wallets.{
  WalletService, because, policy_event, owned, get_view, change_policy, disable_wallet,
}

module _ {S : Type 0} (service : WalletService S) (user_id : AccountId) (id : Text) (s : S) where
  -- The state behind the one read that every request begins with.
  abbrev pub looked_up : S
  looked_up = (service.wallets.get_wallet id s).1

  owned_foreign :
      (w : Wallet)
      → (service.wallets.get_wallet id s).0 ≡ ok w
      → w.user_id ≢ user_id
      → owned service user_id id s ≡ (err err_wallet_not_owned, looked_up)
  unfolding owned
  owned_foreign w found other = ground (arith, text_eq_iff w.user_id user_id)

  owned_own :
      (w : Wallet)
      → (service.wallets.get_wallet id s).0 ≡ ok w
      → w.user_id ≡ user_id
      → owned service user_id id s ≡ (ok w, looked_up)
  unfolding owned
  owned_own w found own = ground (arith, text_eq_iff w.user_id user_id)

  -- A request for a wallet of another account ends with the same refusal for reading it, for changing
  -- its limits and for turning it off, and nothing was done but to look the wallet up.
  pub foreign_wallet :
      (w : Wallet) (p : WalletPolicy) (actor_id : Text)
      → (service.wallets.get_wallet id s).0 ≡ ok w
      → w.user_id ≢ user_id
      → (get_view service user_id id s ≡ (err err_wallet_not_owned, looked_up))
        × (change_policy service user_id id p actor_id s ≡ (err err_wallet_not_owned, looked_up))
        × (disable_wallet service user_id id actor_id s ≡ (err err_wallet_not_owned, looked_up))
  unfolding get_view change_policy disable_wallet
  foreign_wallet w p actor_id found other =
      let refused = owned_foreign w found other in (rw refused, rw refused, rw refused)

  -- Limits that `Validate` refuses never reach the store: the request fails with the complaint, and
  -- beside the look-up only the audit trail was written.
  pub invalid_policy_not_stored :
      (w : Wallet) (p : WalletPolicy) (actor_id : Text) (e : Error)
      → (service.wallets.get_wallet id s).0 ≡ ok w
      → w.user_id ≡ user_id
      → validate p ≡ err e
      → change_policy service user_id id p actor_id s ≡ (
        err (wrap (codes "invalid policy") e),
        (record_audit service.audit
            (because (message e) (policy_event actor_id id outcome_rejected))
            looked_up).1,
      )
  unfolding change_policy record_audit
  invalid_policy_not_stored w p actor_id e found own bad = elim (Option-cases service.audit) [
    | inl none_e ↦ rw (owned_own w found own, bad, none_e)
    | inr (a, some_e) ↦ rw (owned_own w found own, bad, some_e)
  ]
