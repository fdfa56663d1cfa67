-- ===== src/Http/Apart.antt =====
-- What a request to the Mini App leaves of the state behind its verification, where the ports leave it.
use hoodalpha.Prelude.{
  Bool-cases, Option-cases, ◌≡◌, refl, ◌∙◌, ◌≢◌, inl, inr, Bool, true, some, [], arith,
}
use hoodalpha.Go.Text.{Text, codes, text_eq}
use hoodalpha.Go.Error.{wrap, Result-cases}
use hoodalpha.Go.Exec.{Exec, wrapping, ◌>>=◌, Keeps, bind-Keeps}
use hoodalpha.Go.Time.{Time}
use hoodalpha.Domain.Audit.{AuditEvent}
use hoodalpha.Domain.User.{TelegramId, is_valid_id, is_active, User, TelegramUser, allows}
use hoodalpha.Domain.Wallet.{is_valid_role}
use hoodalpha.App.Ports.{record_audit}
use hoodalpha.App.Onboarding.{Identity, admit, authorize}
use hoodalpha.App.MiniApp.{MiniAppAuth, signed_identity, authenticate_data, authenticate}
use hoodalpha.App.Wallets.{event}
use hoodalpha.App.Wallets.Apart.{
  IsApart, link_wallet-Keeps, list_wallets-Keeps, get_view-Keeps, change_policy-Keeps,
}
use hoodalpha.InitData.Types.{Data}
use hoodalpha.Http.Requests.{
  Route, healthz, readyz, version, session, list_route, link_route, wallet_route, policy_route,
  unknown_route, HttpRequest, Server, init_data, role_of, requested_policy, actor_of,
  requested_link,
}
use hoodalpha.Http.{
  list_handler, link_handler, wallet_handler, policy_handler, miniapp_route, require_init_data,
  miniapp, serve,
}
use hoodalpha.Http.Sessions.{is_miniapp, route_miniapp}

-- The ports of an authentication leave a view of the state as it is; its verifier may change it.
pub record IsAuthApart {S V : Type 0} (view : S → V) (a : MiniAppAuth S) : Type 0 where
  pub ensures : (t : TelegramUser) → Keeps view (a.onboarding.users.ensure_telegram_user t)
  pub audits : (event : Time → AuditEvent) → Keeps view (record_audit a.audit event)
  pub audits_onboarding :
      (event : Time → AuditEvent) → Keeps view (record_audit a.onboarding.audit event)

module _ {S V : Type 0} (view : S → V) (a : MiniAppAuth S) (auth_apart : IsAuthApart view a) where
  open auth_apart use {ensures, audits, audits_onboarding}

  behind_refusal :
      {A : Type 0} (event : Time → AuditEvent) (f : Unit → Exec S A) (s : S)
      → ((u : Unit) → Keeps view (f u))
      → view ((record_audit a.onboarding.audit event >>= f) s).1 ≡ view s
  behind_refusal event f s keeps =
      bind-Keeps view (record_audit a.onboarding.audit event) f (audits_onboarding event) keeps s

  behind_event :
      {A : Type 0} (event : Time → AuditEvent) (f : Unit → Exec S A) (s : S)
      → ((u : Unit) → Keeps view (f u))
      → view ((record_audit a.audit event >>= f) s).1 ≡ view s
  behind_event event f s keeps =
      bind-Keeps view (record_audit a.audit event) f (audits event) keeps s

  admit-Keeps :
      (id : TelegramId) (user : User) (stored : TelegramUser) (created : Bool)
      → Keeps view (admit a.onboarding id user stored created)
  unfolding admit
  admit-Keeps id user stored created s = elim (Bool-cases (is_active user.status)) [
    | inr asleep ↦ rw (admit, asleep) (behind_refusal _ _ s (λ u t. refl))
    | inl awake ↦ elim (Bool-cases created) [
      | inl new_one ↦ rw (admit, awake, new_one) (behind_refusal _ _ s (λ u t. refl))
      | inr old_one ↦ rw (admit, awake, old_one) refl
    ]
  ]

  authorize-Keeps : (tu : TelegramUser) → Keeps view (authorize a.onboarding tu)
  unfolding authorize
  authorize-Keeps tu s = elim (Bool-cases (is_valid_id tu.telegram_id)) [
    | inr invalid ↦ rw (authorize, invalid) refl
    | inl valid ↦ elim (Bool-cases (allows a.onboarding.allowlist tu.telegram_id)) [
      | inr stranger ↦ rw (authorize, valid, stranger) (behind_refusal _ _ s (λ u t. refl))
      | inl listed ↦
          rw (authorize, valid, listed)
            (bind-Keeps view
              (wrapping (wrap (codes "ensure telegram user"))
                (a.onboarding.users.ensure_telegram_user tu))
              (λ found. admit a.onboarding tu.telegram_id found.0 found.1 found.2) (ensures tu)
              (λ found. admit-Keeps tu.telegram_id found.0 found.1 found.2) s)
    ]
  ]

  authenticate_data-Keeps : (payload : Data) → Keeps view (authenticate_data a payload)
  unfolding authenticate_data
  authenticate_data-Keeps payload s = elim (Bool-cases payload.user.is_bot) [
    | inl machine ↦ rw (authenticate_data, machine) (behind_event _ _ s (λ u t. refl))
    | inr human ↦
        rw (authenticate_data, human)
          (bind-Keeps view (authorize a.onboarding (signed_identity payload)) _
            (authorize-Keeps (signed_identity payload))
            (λ identity t. behind_event _ _ t (λ u v. refl)) s)
  ]

  -- Authentication touches the view only by its verifier.
  authenticate-view :
      (accept : Text → Exec S Data) (raw : Text) (s : S)
      → a.verifier ≡ some accept
      → view (authenticate a raw s).1 ≡ view (accept raw s).1
  unfolding authenticate
  authenticate-view accept raw s configured = elim (Result-cases (accept raw s).0) [
    | inr (e, refused) ↦ rw (configured, refused) (behind_event _ _ (accept raw s).1 (λ u t. refl))
    | inl (payload, accepted) ↦
        rw (configured, accepted) (authenticate_data-Keeps payload (accept raw s).1)
  ]

  module _ (server : Server S) (apart : IsApart view server.wallets) where
    link_handler-view :
        (id : Identity) (body : Text) (s : S) → view (link_handler server id body s).1 ≡ view s
    unfolding link_handler
    link_handler-view id body s = elim (Option-cases (server.decode_link body)) [
      | inl undecoded ↦ rw (link_handler, undecoded) refl
      | inr (b, decoded) ↦ elim (Bool-cases (is_valid_role (role_of b.role))) [
        | inr invalid ↦ rw (link_handler, decoded, invalid) refl
        | inl valid ↦
            rw (link_handler, decoded, valid)
              (link_wallet-Keeps view server.wallets apart (requested_link id b) s)
      ]
    ]

    policy_handler-view :
        (id : Identity) (wallet_id body : Text) (s : S)
        → view (policy_handler server id wallet_id body s).1 ≡ view s
    unfolding policy_handler
    policy_handler-view id wallet_id body s = elim (Option-cases (server.decode_policy body)) [
      | inl undecoded ↦ rw (policy_handler, undecoded) refl
      | inr (b, decoded) ↦
          rw (policy_handler, decoded)
            (change_policy-Keeps view server.wallets apart id.user.id wallet_id (requested_policy b)
              (actor_of id) s)
    ]

    miniapp_route-view :
        (route : Route) (body : Text) (id : Identity) (s : S)
        → view (miniapp_route server route body id s).1 ≡ view s
    unfolding miniapp_route list_handler wallet_handler
    miniapp_route-view session body id s = refl
    miniapp_route-view list_route body id s =
        list_wallets-Keeps view server.wallets apart id.user.id s
    miniapp_route-view link_route body id s = link_handler-view id body s
    miniapp_route-view (wallet_route wallet_id) body id s =
        get_view-Keeps view server.wallets apart id.user.id wallet_id s
    miniapp_route-view (policy_route wallet_id) body id s = policy_handler-view id wallet_id body s
    miniapp_route-view healthz body id s = refl
    miniapp_route-view readyz body id s = refl
    miniapp_route-view version body id s = refl
    miniapp_route-view unknown_route body id s = refl

    require_init_data-view :
        (accept : Text → Exec S Data) (r : HttpRequest) (s : S)
        → a.verifier ≡ some accept
        → (require_init_data server a r s).0.status ≢ 401
        → view (require_init_data server a r s).1 ≡ view (accept (init_data r) s).1
    unfolding require_init_data
    require_init_data-view accept r s configured answered =
        elim (Bool-cases (text_eq (init_data r) [])) [
          | inl e ↦ ground arith
          | inr e ↦
              let s1 = (authenticate a (init_data r) s).1 in
              let seen = authenticate-view accept (init_data r) s configured in
              elim (Result-cases (authenticate a (init_data r) s).0) [
                | inr (f, refused) ↦ ground arith
                | inl (id, admitted) ↦
                    rw (e, admitted) (miniapp_route-view r.route r.body id s1 ∙ seen)
              ]
        ]

    -- A request that is answered with anything but 401 leaves the view as its verification does.
    pub serve-view :
        (accept : Text → Exec S Data) (r : HttpRequest) (s : S)
        → server.auth ≡ some a
        → a.verifier ≡ some accept
        → is_miniapp r.route ≡ true
        → (serve server r s).0.status ≢ 401
        → view (serve server r s).1 ≡ view (accept (init_data r) s).1
    unfolding serve miniapp
    serve-view accept r s present configured inside answered =
        let e : serve server r s ≡ require_init_data server a r s =
          route_miniapp server r.route r s inside ∙ rw present refl in
        rw e (require_init_data-view accept r s configured (rw e at answered))
