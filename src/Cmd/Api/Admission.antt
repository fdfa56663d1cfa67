-- ===== src/Cmd/Api/Admission.antt =====
-- Whom the Mini App of a configured API answers.
use hoodalpha.Prelude.{◌≡◌, refl, sym, ◌∙◌, ◌≢◌, inl, inr, true, false, Option, none, some, arith}
use hoodalpha.Go.Text.{codes}
use hoodalpha.Go.Error.{ok, Result-cases}
use hoodalpha.Go.Time.{Time}
use hoodalpha.Domain.User.{is_active, has_id}
use hoodalpha.App.Health.{HeadWatcher}
use hoodalpha.App.MiniApp.{MiniAppAuth, authenticate}
use hoodalpha.App.Onboarding.{Identity}
use hoodalpha.InitData.{new_verifier, is_signed, auth_date_of, user_of, check_values, verify}
use hoodalpha.InitData.Query.{Values, parse_query}
use hoodalpha.InitData.Accepted.{check_values_ok, verify_steps}
use hoodalpha.Http.{miniapp_route, miniapp, serve}
use hoodalpha.Http.Requests.{HttpRequest, Server, no_route, init_data}
use hoodalpha.Http.Sessions.{is_miniapp, route_miniapp, answered_to_user}
use hoodalpha.Config.{Config, enabled}
use hoodalpha.Config.Env.{Environment, parsed}
use hoodalpha.Config.Load.{load}
use hoodalpha.Config.Allowed.{load-allows}
use hoodalpha.Cmd.{Ports, Libraries, new_wallet_service}
use hoodalpha.Cmd.Api.{verifier_options, new_mini_app_auth, api_auth, api_server}
use hoodalpha.InitData.Types.{InitUser, Data, Library, Verifier, Options}

check_values_user :
    (library : Library) {S : Type 0} (v : Verifier S) (values : Values) (now : Time) (found : Data)
    → check_values library v values now ≡ ok found
    → user_of library values ≡ ok found.user
unfolding check_values
check_values_user library v values now found h = elim (Result-cases (auth_date_of library values)) [
  | inr (e, undated) ↦ ground arith
  | inl (auth_date, dated) ↦ elim (Result-cases (user_of library values)) [
    | inr (e, unnamed) ↦ ground arith
    | inl (user, named) ↦ ground arith
  ]
]

-- The key of `NewVerifier` is made from the token.
new_verifier_key :
    (library : Library) {S : Type 0} (o : Options S) (v : Verifier S)
    → new_verifier library o ≡ ok v
    → v.secret_key ≡ library.hmac_sha256 (codes "WebAppData") o.bot_token
unfolding new_verifier
new_verifier_key library o v h = ground arith

module _ {S : Type 0} (libraries : Libraries) (ports : Ports S) (c : Config)
    (head : Option (HeadWatcher S)) (server : Server S)
    (built : api_server libraries ports c head ≡ ok server) where
  open libraries use {crypto}

  pub server-auth :
      enabled c.telegram ≡ true
      → (v : Verifier S) × (new_verifier crypto (verifier_options libraries ports c) ≡ ok v)
        × (server.auth ≡ some (new_mini_app_auth libraries ports c v))
  unfolding api_server api_auth
  server-auth on = elim (Result-cases (new_verifier crypto (verifier_options libraries ports c))) [
    | inr (e, failed) ↦ ground arith
    | inl (v, made) ↦ (v, made, ground arith)
  ]

  pub server-wallets : server.wallets ≡ new_wallet_service ports c
  unfolding api_server
  server-wallets = elim (Result-cases (api_auth libraries ports c)) [
    | inr (e, failed) ↦ ground arith
    | inl (auth, made) ↦ ground arith
  ]

  no_server-auth : enabled c.telegram ≡ false → server.auth ≡ none
  unfolding api_server api_auth
  no_server-auth off = ground arith

  -- Without the token of a bot the routes of the Mini App do not exist: each answers 404 and changes
  -- nothing.
  api_closed :
      (r : HttpRequest) (s : S)
      → enabled c.telegram ≡ false
      → is_miniapp r.route ≡ true
      → serve server r s ≡ (no_route, s)
  unfolding serve miniapp
  api_closed r s off inside = route_miniapp server r.route r s inside ∙ rw (no_server-auth off) refl

  -- The API of a loaded configuration with the token of a bot answers a request to the Mini App with anything
  -- but 401 only if a header of the request carries fields that are signed with that token, whose user
  -- is listed in the configuration and is no bot. The answer is that of the route for the identity that
  -- `Authenticate` gave, and the account of that identity is active.
  pub api_admits :
      (env : Environment) (r : HttpRequest) (s : S)
      → load env ≡ ok c
      → enabled c.telegram ≡ true
      → is_miniapp r.route ≡ true
      → (serve server r s).0.status ≢ 401
      → (a : MiniAppAuth S) × (values : Values) × (user : InitUser) × (id : Identity) × (server.auth
          ≡ some a)
        × (parse_query (init_data r) ≡ ok values)
        × (is_signed crypto (crypto.hmac_sha256 (codes "WebAppData") c.telegram.bot_token) values
            ≡ true)
        × (user_of crypto values ≡ ok user)
        × (has_id user.id c.telegram.allowed_user_ids ≡ true)
        × (user.is_bot ≡ false)
        × (is_active id.user.status ≡ true)
        × ((authenticate a (init_data r) s).0 ≡ ok id)
        × (serve server r s
            ≡ miniapp_route server r.route r.body id (authenticate a (init_data r) s).1)
  api_admits env r s loaded on inside answered =
      let (v, made, configured) = server-auth on in
      let (id, payload, accepted, human, listed, live, given, by_route) =
        answered_to_user server (new_mini_app_auth libraries ports c v) (verify crypto v) r s
          configured refl inside answered in
      let (values, parsed, checked, fresh) =
        verify_steps crypto v (init_data r) s payload accepted in
      let sound = check_values_ok crypto v values (v.now s) payload checked in
      (
        new_mini_app_auth libraries ports c v,
        values,
        payload.user,
        id,
        configured,
        parsed,
        rw (← new_verifier_key crypto (verifier_options libraries ports c) v made) sound.0,
        check_values_user crypto v values (v.now s) payload checked,
        sym (load-allows env c payload.user.id loaded) ∙ listed,
        human,
        live,
        given,
        by_route,
      )
