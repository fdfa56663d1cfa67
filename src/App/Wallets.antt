-- ===== src/App/Wallets.antt =====
-- internal/application/wallet.go: `WalletService`.
pub mod Access
pub mod Apart
use hoodalpha.Prelude.{
  ◌==◌, if◌then◌else◌, ℕ, true, false, not, Option, none, some, List, [], ◌∷◌, ◌++◌,
}
use hoodalpha.Go.Text.{Text, codes, text_eq, before, decimal}
use hoodalpha.Go.Error.{
  wrong_chain, wallet_already_linked, Error, variable, wrap, tagged, is, message, Result, ok, err,
}
use hoodalpha.Go.Exec.{Exec, pure, fail, wrapping, attempt, get, fail_if, ◌>>=◌, ◌>>◌}
use hoodalpha.Go.Time.{Time}
use hoodalpha.Domain.Wei.{Wei}
use hoodalpha.Domain.User.{AccountId}
use hoodalpha.Domain.Wallet.{
  err_wallet_not_owned, WalletRole, role_text, disabled, Wallet, new_wallet,
}
use hoodalpha.Domain.Policy.{WalletPolicy, validate}
use hoodalpha.Domain.Audit.{
  Actor, telegram_user_actor, worker_actor, Outcome, outcome_ok, outcome_rejected, outcome_failed,
  Action, wallet_linked, wallet_verified, wallet_verify_failed, wallet_disabled, policy_changed,
  text_value, number_value, policy_value, AuditEvent, new_audit_event, with_subject, with_outcome,
  with_detail,
}
use hoodalpha.App.Ports.{WalletStore, AuditStore, TaskEnqueuer, AddressProbe, record_audit}

-- `WalletService`: the audit trail and the queue may be absent, and the chain too where the service
-- only lists.
pub record WalletService (S : Type 0) : Type 0 where
  pub wallets : WalletStore S
  pub audit : Option (AuditStore S)
  pub chain : Option (AddressProbe S)
  pub queue : Option (TaskEnqueuer S)
  pub chain_id : ℕ
  pub defaults : WalletPolicy
  pub now : S → Time

-- `LinkRequest`
pub record LinkRequest : Type 0 where
  pub user_id : AccountId
  pub address : Text
  pub role : WalletRole
  pub label : Text
  pub actor_id : Text

-- `WalletView`
pub record WalletView : Type 0 where
  pub wallet : Wallet
  pub policy : Option WalletPolicy
  pub balance : Option Wei
  pub balance_error : Text

abbrev pub event : Actor → Text → Action → Text → Text → Outcome → Time → AuditEvent
event actor actor_id action subject_type subject_id outcome now =
    with_outcome outcome
      (with_subject subject_type subject_id (new_audit_event now actor actor_id action))

abbrev pub because : Text → (Time → AuditEvent) → Time → AuditEvent
because reason e now = with_detail (codes "reason") (text_value reason) (e now)

abbrev pub verify_event : Text → Action → Outcome → Time → AuditEvent
verify_event wallet_id action outcome =
    event worker_actor (codes "worker") action (codes "wallet") wallet_id outcome

-- The error of `Verify` where the node is on another chain.
abbrev pub wrong_chain_error : ℕ → ℕ → Error
wrong_chain_error id expected =
    tagged (variable wrong_chain (codes "chain id mismatch"))
      (codes "node reports " ++ decimal id ++ codes ", wallet expects " ++ decimal expected)

-- A result that is left out of the view where it is an error.
abbrev pub kept : {A : Type 0} → Result A → Option A
kept (ok a) = some a
kept (err _) = none

abbrev pub error_text : {A : Type 0} → Result A → Text
error_text (ok _) = []
error_text (err e) = message e

abbrev pub policy_event : Text → Text → Outcome → Time → AuditEvent
policy_event actor_id wallet_id outcome =
    event telegram_user_actor actor_id policy_changed (codes "wallet") wallet_id outcome

module _ {S : Type 0} (service : WalletService S) where
  open service use {wallets, audit, chain, queue, defaults}

  -- The branch of `Link` where the store refuses.
  abbrev pub link_refused : LinkRequest → Wallet → Error → Exec S Wallet
  link_refused req wallet e = do
    record_audit audit (
        because (message e) (
          event telegram_user_actor req.actor_id wallet_linked (codes "wallet_address")
            wallet.address
            (if is e wallet_already_linked then outcome_rejected else outcome_failed)))
    fail e

  -- The branch of `Link` behind the store: the event, and the task to verify, whose failure is logged.
  abbrev pub link_stored : LinkRequest → Wallet → Exec S Wallet
  link_stored req stored = do
    record_audit audit (λ now. with_detail (codes "role") (text_value (role_text stored.role)) (
        with_detail (codes "chain_id") (number_value stored.chain_id) (
          with_detail (codes "address") (text_value stored.address) (
            event telegram_user_actor req.actor_id wallet_linked (codes "wallet") stored.id
              outcome_ok now))))
    elim queue [
      | none ↦ pure stored
      | some q ↦ attempt (q.enqueue_wallet_verify stored.id) >> pure stored
    ]

  -- `Link`
  unfoldable pub link_wallet : LinkRequest → Exec S Wallet
  unfolding record_audit
  link_wallet req = elim (new_wallet req.user_id req.address service.chain_id req.role req.label) [
    | err e ↦ do
      record_audit audit (
          because (message e)
            (event telegram_user_actor req.actor_id wallet_linked [] [] outcome_rejected))
      fail e
    | ok wallet ↦ do
      linked ← attempt (wallets.link wallet (record defaults { trading_enabled = false }))
      elim linked [ err e ↦ link_refused req wallet e | ok stored ↦ link_stored req stored ]
  ]

  -- `Verify` behind a chain that answers with the wallet's chain id.
  unfoldable pub verify_on_chain : AddressProbe S → Text → Wallet → Exec S Wallet
  verify_on_chain probe wallet_id wallet = do
    balance ← attempt (probe.balance_at wallet.address none)
    elim balance [
      | err e ↦ do
        record_audit audit (
            because (codes "balance read failed")
              (verify_event wallet_id wallet_verify_failed outcome_failed))
        fail (wrap (codes "read balance") e)
      | ok _ ↦ do
        s ← get
        wallets.mark_verified wallet_id (service.now s)
        record_audit audit (λ now. with_detail (codes "chain_id") (number_value wallet.chain_id) (
            with_detail (codes "address") (text_value wallet.address)
              (verify_event wallet_id wallet_verified outcome_ok now)))
        wallets.get_wallet wallet_id
    ]

  -- `Verify`, on a service that has a chain: without one the source panics.
  unfoldable pub verify_wallet : AddressProbe S → Text → Exec S Wallet
  unfolding verify_on_chain record_audit
  verify_wallet probe wallet_id = do
    wallet ← wallets.get_wallet wallet_id
    id ← wrapping (wrap (codes "read chain id")) probe.chain_id
    elim (id == wallet.chain_id) [
      | false ↦ do
        record_audit audit (λ now.
            with_detail (codes "wallet_chain_id") (number_value wallet.chain_id) (
              with_detail (codes "node_chain_id") (number_value id) (
                because (codes "chain id mismatch")
                  (verify_event wallet_id wallet_verify_failed outcome_failed) now)))
        fail (wrong_chain_error id wallet.chain_id)
      | true ↦ verify_on_chain probe wallet_id wallet
    ]

  -- The policy and the balance of a wallet for display: what cannot be read is left out.
  unfoldable pub view_of : Wallet → Exec S WalletView
  view_of w = do
    policy ← attempt (wallets.get_policy w.id)
    elim chain [
      | none ↦
          pure (record { wallet = w; policy = kept policy; balance = none; balance_error = [] })
      | some probe ↦ do
        balance ← attempt (probe.balance_at w.address none)
        pure (record {
          wallet = w;
          policy = kept policy;
          balance = kept balance;
          balance_error = error_text balance;
        })
    ]

  unfoldable pub views_of : List Wallet → Exec S (List WalletView)
  unfolding view_of
  views_of [] = pure []
  views_of (w ∷ ws) = do view ← view_of w; rest ← views_of ws; pure (view ∷ rest)

  -- `List`
  unfoldable pub list_wallets : AccountId → Exec S (List WalletView)
  unfolding views_of
  list_wallets user_id = do ws ← wallets.list_by_user user_id; views_of ws

  -- The wallet that a request names, if it belongs to the caller.
  unfoldable pub owned : AccountId → Text → Exec S Wallet
  owned user_id wallet_id = do
    w ← wallets.get_wallet wallet_id
    fail_if (not (text_eq w.user_id user_id)) err_wallet_not_owned
    pure w

  -- `Get`
  unfoldable pub get_view : AccountId → Text → Exec S WalletView
  unfolding view_of
  get_view user_id wallet_id = do w ← owned user_id wallet_id; view_of w

  -- `UpdatePolicy` for limits that are valid.
  unfoldable pub store_policy : Text → WalletPolicy → Text → Exec S WalletPolicy
  unfolding record_audit
  store_policy wallet_id p actor_id = do
    before ← wallets.get_policy wallet_id
    stored ← attempt (wallets.update_policy wallet_id p)
    elim stored [
      | err e ↦ do
        record_audit audit (because (message e) (policy_event actor_id wallet_id outcome_rejected))
        fail e
      | ok _ ↦ do
        record_audit audit (λ now. with_detail (codes "after") (policy_value p) (
            with_detail (codes "before") (policy_value before)
              (policy_event actor_id wallet_id outcome_ok now)))
        wallets.get_policy wallet_id
    ]

  -- `UpdatePolicy`
  unfoldable pub change_policy : AccountId → Text → WalletPolicy → Text → Exec S WalletPolicy
  unfolding store_policy record_audit
  change_policy user_id wallet_id p actor_id = do
    owned user_id wallet_id
    elim (validate p) [
      | err e ↦ do
        record_audit audit (because (message e) (policy_event actor_id wallet_id outcome_rejected))
        fail (wrap (codes "invalid policy") e)
      | ok _ ↦ store_policy wallet_id p actor_id
    ]

  -- `Disable`
  unfoldable pub disable_wallet : AccountId → Text → Text → Exec S Unit
  unfolding record_audit
  disable_wallet user_id wallet_id actor_id = do
    owned user_id wallet_id
    wallets.set_status wallet_id disabled
    record_audit audit
        (event telegram_user_actor actor_id wallet_disabled (codes "wallet") wallet_id outcome_ok)
