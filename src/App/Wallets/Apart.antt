-- ===== src/App/Wallets/Apart.antt =====
-- What the use cases of the wallets leave of the state, where their ports leave it.
use hoodalpha.Prelude.{
  Bool-cases, Option-cases, ◌≡◌, refl, ◌∙◌, inl, inr, false, none, some, List, [], ◌∷◌,
}
use hoodalpha.Go.Text.{Text, text_eq, before}
use hoodalpha.Go.Error.{Result, ok, err, Result-cases}
use hoodalpha.Go.Exec.{Exec, pure, ◌>>=◌, Keeps, bind-Keeps}
use hoodalpha.Go.Time.{Time}
use hoodalpha.Domain.Audit.{AuditEvent}
use hoodalpha.Domain.Address.{Address}
use hoodalpha.Domain.Policy.{WalletPolicy, validate}
use hoodalpha.Domain.Wallet.{Wallet, new_wallet}
use hoodalpha.Domain.User.{AccountId}
use hoodalpha.App.Ports.{TaskEnqueuer, AddressProbe, record_audit}
use hoodalpha.App.Wallets.{
  WalletService, LinkRequest, event, link_refused, link_stored, link_wallet, view_of, views_of,
  list_wallets, owned, get_view, store_policy, change_policy,
}

-- The ports leave a view of the state as it is.
pub record IsApart {S V : Type 0} (view : S → V) (service : WalletService S) : Type 0 where
  pub links : (w : Wallet) (p : WalletPolicy) → Keeps view (service.wallets.link w p)
  pub gets : (id : Text) → Keeps view (service.wallets.get_wallet id)
  pub lists : (user_id : AccountId) → Keeps view (service.wallets.list_by_user user_id)
  pub gets_policy : (id : Text) → Keeps view (service.wallets.get_policy id)
  pub updates_policy :
      (id : Text) (p : WalletPolicy) → Keeps view (service.wallets.update_policy id p)
  pub audits : (event : Time → AuditEvent) → Keeps view (record_audit service.audit event)
  pub reads :
      (probe : AddressProbe S) (a : Address)
      → service.chain ≡ some probe
      → Keeps view (probe.balance_at a none)
  pub enqueues :
      (q : TaskEnqueuer S) (id : Text)
      → service.queue ≡ some q
      → Keeps view (q.enqueue_wallet_verify id)

module _ {S V : Type 0} (view : S → V) (service : WalletService S)
    (apart : IsApart view service) where
  open apart use {links, gets, lists, gets_policy, updates_policy, audits, reads, enqueues}

  behind_audit :
      {A : Type 0} (event : Time → AuditEvent) (f : Unit → Exec S A) (s : S)
      → ((u : Unit) → Keeps view (f u))
      → view ((record_audit service.audit event >>= f) s).1 ≡ view s
  behind_audit event f s keeps =
      bind-Keeps view (record_audit service.audit event) f (audits event) keeps s

  link_stored-Keeps :
      (req : LinkRequest) (stored : Wallet) → Keeps view (link_stored service req stored)
  link_stored-Keeps req stored s = elim (Option-cases service.queue) [
    | inl unqueued ↦ rw unqueued (behind_audit _ _ s (λ u t. refl))
    | inr (q, queued) ↦ rw queued (behind_audit _ _ s (λ u t. enqueues q stored.id queued t))
  ]

  pub link_wallet-Keeps : (req : LinkRequest) → Keeps view (link_wallet service req)
  unfolding link_wallet
  link_wallet-Keeps req s =
      elim (Result-cases (new_wallet req.user_id req.address service.chain_id req.role req.label)) [
        | inr (e, refused) ↦ rw (link_wallet, refused) (behind_audit _ _ s (λ u t. refl))
        | inl (wallet, made) ↦
            rw (link_wallet, made)
              (behind_link wallet (
                  service.wallets.link wallet (record service.defaults { trading_enabled = false })
                    s)
                ∙ links wallet _ s)
      ]
    where
      behind_link :
          (wallet : Wallet) (answer : Result Wallet × S)
          → view
              ((elim answer.0 as (λ _. Exec S Wallet) [
                | err e ↦ link_refused service req wallet e
                | ok stored ↦ link_stored service req stored
              ])
                answer.1).1
            ≡ view answer.1
      behind_link wallet (err e, t) = behind_audit _ _ t (λ u t. refl)
      behind_link wallet (ok stored, t) = link_stored-Keeps req stored t

  view_of-Keeps : (w : Wallet) → Keeps view (view_of service w)
  unfolding view_of
  view_of-Keeps w s = elim (Option-cases service.chain) [
    | inl unread ↦ rw unread (gets_policy w.id s)
    | inr (probe, read) ↦
        rw read
          (reads probe w.address read (service.wallets.get_policy w.id s).1 ∙ gets_policy w.id s)
  ]

  views_of-Keeps : (ws : List Wallet) → Keeps view (views_of service ws)
  unfolding views_of
  views_of-Keeps [] s = refl
  views_of-Keeps (w ∷ ws) s =
      bind-Keeps view (view_of service w) _ (view_of-Keeps w)
        (λ v.
          bind-Keeps view (views_of service ws) (λ rest. pure (v ∷ rest)) (views_of-Keeps ws)
            (λ _ t. refl))
        s

  pub list_wallets-Keeps : (user_id : AccountId) → Keeps view (list_wallets service user_id)
  unfolding list_wallets
  list_wallets-Keeps user_id =
      bind-Keeps view (service.wallets.list_by_user user_id) (views_of service) (lists user_id)
        views_of-Keeps

  owned-Keeps : (user_id : AccountId) (id : Text) → Keeps view (owned service user_id id)
  unfolding owned
  owned-Keeps user_id id s = elim (Result-cases (service.wallets.get_wallet id s).0) [
    | inr (e, missing) ↦ rw missing (gets id s)
    | inl (w, found) ↦ elim (Bool-cases (text_eq w.user_id user_id)) [
      | inl mine ↦ rw (found, mine) (gets id s)
      | inr other ↦ rw (found, other) (gets id s)
    ]
  ]

  pub get_view-Keeps : (user_id : AccountId) (id : Text) → Keeps view (get_view service user_id id)
  unfolding get_view
  get_view-Keeps user_id id =
      bind-Keeps view (owned service user_id id) (view_of service) (owned-Keeps user_id id)
        view_of-Keeps

  store_policy-Keeps :
      (id : Text) (p : WalletPolicy) (actor_id : Text)
      → Keeps view (store_policy service id p actor_id)
  unfolding store_policy
  store_policy-Keeps id p actor_id s = elim (Result-cases (service.wallets.get_policy id s).0) [
    | inr (e, missing) ↦ rw missing (gets_policy id s)
    | inl (before, found) ↦
        let s1 = (service.wallets.get_policy id s).1 in
        let s2 = (service.wallets.update_policy id p s1).1 in
        let stays = updates_policy id p s1 ∙ gets_policy id s in
        elim (Result-cases (service.wallets.update_policy id p s1).0) [
          | inr (e, failed) ↦ rw (found, failed) (behind_audit _ _ s2 (λ u t. refl) ∙ stays)
          | inl (u, stored) ↦ rw (found, stored) (behind_audit _ _ s2 (λ u. gets_policy id) ∙ stays)
        ]
  ]

  pub change_policy-Keeps :
      (user_id : AccountId) (id : Text) (p : WalletPolicy) (actor_id : Text)
      → Keeps view (change_policy service user_id id p actor_id)
  unfolding change_policy
  change_policy-Keeps user_id id p actor_id s =
      bind-Keeps view (owned service user_id id) _ (owned-Keeps user_id id)
        (λ w t. elim (Result-cases (validate p)) [
          | inr (e, bad) ↦ rw bad (behind_audit _ _ t (λ u v. refl))
          | inl (u, good) ↦ rw good (store_policy-Keeps id p actor_id t)
        ])
        s
