-- ===== src/Http/Answers.antt =====
-- The answers of the wallet routes.
use hoodalpha.Prelude.{
  Bool-cases, Option-cases, ℕ, ◌≡◌, refl, sym, ◌∙◌, ◌≢◌, ◌↔◌, inl, inr, true, some, ◌++◌, arith,
}
use hoodalpha.Go.Text.{Text, codes, has_prefix, contains}
use hoodalpha.Go.Error.{not_found, Error, new, wrap, is, message, ok, err, Result-cases}
use hoodalpha.Domain.Wallet.{is_valid_role, Wallet}
use hoodalpha.Domain.Policy.{validate}
use hoodalpha.App.Ports.{record_audit}
use hoodalpha.App.Onboarding.{Identity}
use hoodalpha.App.Wallets.{because, policy_event, link_wallet, owned, get_view, change_policy}
use hoodalpha.App.Wallets.Access.{looked_up, foreign_wallet, invalid_policy_not_stored}
use hoodalpha.App.ChainSync.{ChainProbe}
use hoodalpha.App.Health.Network.{wrong_network_down}
use hoodalpha.Http.{link_handler, wallet_handler, policy_handler, ready_handler, serve_route, serve}
use hoodalpha.Domain.Audit.{outcome_rejected}
use hoodalpha.Http.Requests.{
  readyz, HttpRequest, Response, LinkBody, PolicyBody, Server, write_error, role_of, wallet_error,
  link_error, policy_error, requested_policy, actor_of, requested_link,
}

policy_error_invalid :
    (reason : Text)
    → policy_error (wrap (codes "invalid policy") (new reason))
      ≡ write_error 422 (codes "invalid policy: " ++ reason)
unfolding policy_error message codes contains has_prefix
policy_error_invalid reason = refl

module _ {S : Type 0} (server : Server S) (id : Identity) where
  abbrev not_there : Response
  not_there = write_error 404 (codes "wallet not found")

  foreign_answer :
      (wallet_id body : Text) (b : PolicyBody) (w : Wallet) (s : S)
      → (server.wallets.wallets.get_wallet wallet_id s).0 ≡ ok w
      → w.user_id ≢ id.user.id
      → server.decode_policy body ≡ some b
      → ((wallet_handler server id wallet_id s).0 ≡ not_there)
        × ((policy_handler server id wallet_id body s).0 ≡ not_there)
  unfolding wallet_handler policy_handler wallet_error policy_error
  foreign_answer wallet_id body b w s found other decoded =
      let (read, changed, _) =
        foreign_wallet server.wallets id.user.id wallet_id s w (requested_policy b) (actor_of id)
          found other in
      (ground arith, ground arith)

  missing_answer :
      (wallet_id body : Text) (b : PolicyBody) (e : Error) (s : S)
      → (server.wallets.wallets.get_wallet wallet_id s).0 ≡ err e
      → is e not_found ≡ true
      → server.decode_policy body ≡ some b
      → ((wallet_handler server id wallet_id s).0 ≡ not_there)
        × ((policy_handler server id wallet_id body s).0 ≡ not_there)
  unfolding wallet_handler policy_handler wallet_error policy_error get_view change_policy owned
  missing_answer wallet_id body b e s missing gone decoded = (ground arith, ground arith)

  -- The routes of one wallet answer for a wallet of another account exactly what they answer for an
  -- identifier for which the store says that it has no such wallet, where the body of a change decodes.
  pub no_enumeration :
      (foreign missing body : Text) (b : PolicyBody) (w : Wallet) (e : Error) (s t : S)
      → (server.wallets.wallets.get_wallet foreign s).0 ≡ ok w
      → w.user_id ≢ id.user.id
      → (server.wallets.wallets.get_wallet missing t).0 ≡ err e
      → is e not_found ≡ true
      → server.decode_policy body ≡ some b
      → ((wallet_handler server id foreign s).0 ≡ (wallet_handler server id missing t).0)
        × ((policy_handler server id foreign body s).0
            ≡ (policy_handler server id missing body t).0)
  no_enumeration foreign missing body b w e s t found other gone lost decoded =
      let (read, changed) = foreign_answer foreign body b w s found other decoded in
      let (read', changed') = missing_answer missing body b e t gone lost decoded in
      (read ∙ sym read', changed ∙ sym changed')

  -- Limits that `Validate` refuses for a wallet of the caller are answered with 422 and the complaint, and
  -- beside the look-up only the audit trail was written.
  invalid_limits_answer :
      (wallet_id body : Text) (b : PolicyBody) (w : Wallet) (reason : Text) (s : S)
      → (server.wallets.wallets.get_wallet wallet_id s).0 ≡ ok w
      → w.user_id ≡ id.user.id
      → server.decode_policy body ≡ some b
      → validate (requested_policy b) ≡ err (new reason)
      → policy_handler server id wallet_id body s ≡ (
        write_error 422 (codes "invalid policy: " ++ reason),
        (record_audit server.wallets.audit
            (because reason (policy_event (actor_of id) wallet_id outcome_rejected))
            (looked_up server.wallets id.user.id wallet_id s)).1,
      )
  unfolding policy_handler message
  invalid_limits_answer wallet_id body b w reason s found own decoded bad =
      let refused =
        invalid_policy_not_stored server.wallets id.user.id wallet_id s w (requested_policy b)
          (actor_of id) (new reason) found own bad in
      ground (arith, refused, policy_error_invalid reason)

  -- A link request is answered with 201 exactly if its body decodes, names no unknown role, and `Link`
  -- returns the wallet.
  pub link_created :
      (body : Text) (s : S)
      → ((link_handler server id body s).0.status ≡ 201) ↔ (
          (b : LinkBody) × (w : Wallet) × (server.decode_link body ≡ some b)
          × (is_valid_role (role_of b.role) ≡ true)
          × ((link_wallet server.wallets (requested_link id b) s).0 ≡ ok w))
  unfolding link_handler link_error
  link_created body s = (
    λ h. elim (Option-cases (server.decode_link body)) [
      | inl e ↦ ground arith
      | inr (b, e) ↦ elim (Bool-cases (is_valid_role (role_of b.role))) [
        | inr bad ↦ ground arith
        | inl fine ↦ elim (Result-cases (link_wallet server.wallets (requested_link id b) s).0) [
          | inl (w, r) ↦ (b, w, e, fine, r)
          | inr (f, r) ↦ ground arith
        ]
      ]
    ],
    λ (b, w, e, fine, r). ground arith,
  )

module _ {S : Type 0} (server : Server S) (probe : ChainProbe S) (chain : ℕ) where
  -- Where another network is expected than the node reports, `/readyz` answers 503.
  wrong_network_not_ready :
      (r : HttpRequest) (s : S)
      → r.route ≡ readyz
      → server.health.chain ≡ some probe
      → ((t : S) → (probe.chain_id t).0 ≡ ok chain)
      → server.health.expected_chain ≢ 0
      → chain ≢ server.health.expected_chain
      → (serve server r s).0.status ≡ 503
  unfolding serve serve_route ready_handler
  wrong_network_not_ready r s route configured answers some_expected other = rw route (
      ground (
        arith,
        wrong_network_down server.health probe chain s configured answers some_expected other,
      ))
