-- ===== src/Http/Sessions.antt =====
-- Who is answered under `/api/miniapp`.
use hoodalpha.Prelude.{
  Bool-cases, ◌≡◌, refl, ap, ◌∙◌, ◌≢◌, inl, inr, Bool, true, false, some, [], arith,
}
use hoodalpha.Go.Text.{Text, text_eq}
use hoodalpha.Go.Error.{ok, Result-cases}
use hoodalpha.Go.Exec.{Exec}
use hoodalpha.Domain.User.{is_active, allows}
use hoodalpha.App.Onboarding.{Identity}
use hoodalpha.App.MiniApp.{MiniAppAuth, authenticate, authenticate_ok}
use hoodalpha.Http.{miniapp_route, require_init_data, miniapp, serve_route, serve}
use hoodalpha.Http.Requests.{
  Route, healthz, readyz, version, session, list_route, link_route, wallet_route, policy_route,
  unknown_route, HttpRequest, Server, init_data,
}
use hoodalpha.InitData.Types.{Data}

abbrev pub is_miniapp : Route → Bool
is_miniapp session = true
is_miniapp list_route = true
is_miniapp link_route = true
is_miniapp (wallet_route _) = true
is_miniapp (policy_route _) = true
is_miniapp _ = false

module _ {S : Type 0} (server : Server S) where
  pub route_miniapp :
      (route : Route) (r : HttpRequest) (s : S)
      → is_miniapp route ≡ true
      → serve_route server route r s ≡ miniapp server r s
  unfolding serve_route
  route_miniapp session r s h = refl
  route_miniapp list_route r s h = refl
  route_miniapp link_route r s h = refl
  route_miniapp (wallet_route _) r s h = refl
  route_miniapp (policy_route _) r s h = refl
  route_miniapp healthz r s h = cc
  route_miniapp readyz r s h = cc
  route_miniapp version r s h = cc
  route_miniapp unknown_route r s h = cc

  -- An answer other than 401 comes from the route, for an identity that `Authenticate` gave.
  answered :
      (a : MiniAppAuth S) (r : HttpRequest) (s : S)
      → (require_init_data server a r s).0.status ≢ 401
      → (id : Identity) × ((authenticate a (init_data r) s).0 ≡ ok id)
  unfolding require_init_data
  answered a r s h = elim (Bool-cases (text_eq (init_data r) [])) [
    | inl e ↦ ground arith
    | inr e ↦ elim (Result-cases (authenticate a (init_data r) s).0) [
      | inl (id, i) ↦ (id, i)
      | inr (f, i) ↦ ground arith
    ]
  ]

  -- What is answered is the answer of the route for that identity.
  answered_by :
      (a : MiniAppAuth S) (r : HttpRequest) (s : S) (id : Identity)
      → (authenticate a (init_data r) s).0 ≡ ok id
      → (require_init_data server a r s).0.status ≢ 401
      → require_init_data server a r s
        ≡ miniapp_route server r.route r.body id (authenticate a (init_data r) s).1
  unfolding require_init_data
  answered_by a r s id given h = elim (Bool-cases (text_eq (init_data r) [])) [
    | inl e ↦ ground arith
    | inr e ↦ rw (e, given) refl
  ]

  -- Under `/api/miniapp` any answer but 401 is given only to the user whom a payload names that the
  -- verifier accepted from a header of the request, who is no bot and on the allowlist: it is the answer of
  -- the route for the identity that `Authenticate` gave, and the account of that identity is active.
  pub answered_to_user :
      (a : MiniAppAuth S) (accept : Text → Exec S Data) (r : HttpRequest) (s : S)
      → server.auth ≡ some a
      → a.verifier ≡ some accept
      → is_miniapp r.route ≡ true
      → (serve server r s).0.status ≢ 401
      → (id : Identity) × (payload : Data) × ((accept (init_data r) s).0 ≡ ok payload)
        × (payload.user.is_bot ≡ false)
        × (allows a.onboarding.allowlist payload.user.id ≡ true)
        × (is_active id.user.status ≡ true)
        × ((authenticate a (init_data r) s).0 ≡ ok id)
        × (serve server r s
            ≡ miniapp_route server r.route r.body id (authenticate a (init_data r) s).1)
  unfolding serve miniapp
  answered_to_user a accept r s configured verifies inside h =
      let route : serve server r s ≡ require_init_data server a r s =
        route_miniapp r.route r s inside ∙ rw configured refl in
      let (id, given) = answered a r s (λ e. h (ap (λ p. p.0.status) route ∙ e)) in
      let (payload, accepted, human, listed, live) =
        authenticate_ok a (init_data r) accept s id verifies given in
      (
        id,
        payload,
        accepted,
        human,
        listed,
        live,
        given,
        route ∙ answered_by a r s id given (λ e. h (ap (λ p. p.0.status) route ∙ e)),
      )
