-- ===== src/Http.antt =====
-- internal/httpapi: the routes of the operational server and of the Mini App backend. Routing itself,
-- the decoding of a body and the text of an instant are libraries.
pub mod Requests
pub mod Bodies
pub mod Answers
pub mod Text64
pub mod Sessions
pub mod Running
pub mod Apart
use hoodalpha.Prelude.{if◌then◌else◌, true, false, none, some, []}
use hoodalpha.Go.Text.{Text, codes, text_eq}
use hoodalpha.Go.Error.{ok, err}
use hoodalpha.Domain.Health.{down}
use hoodalpha.Domain.Wallet.{is_valid_role}
use hoodalpha.App.Onboarding.{Identity}
use hoodalpha.App.MiniApp.{MiniAppAuth, authenticate}
use hoodalpha.App.Wallets.{link_wallet, list_wallets, get_view, change_policy}
use hoodalpha.App.Health.{check}
use hoodalpha.Http.Bodies.{
  string, items, object, no_fields, field, policy_json, wallet_json, wallets_json, session_json,
}
use hoodalpha.Http.Requests.{
  Route, healthz, readyz, version, session, list_route, link_route, wallet_route, policy_route,
  unknown_route, HttpRequest, Server, write_json, write_error, no_route, Handler, init_data,
  role_of, wallet_error, link_error, policy_error, requested_policy, actor_of, requested_link,
  respond,
}

module _ {S : Type 0} (server : Server S) where
  open server use {health, auth, wallets, chain_id, rfc3339}

  -- The handler of `GET /wallets`.
  unfoldable pub list_handler : Identity → Handler S
  list_handler id =
      respond
        (λ views.
          write_json 200
            (object (field (codes "wallets") (items (wallets_json rfc3339 views)) no_fields)))
        (λ e. write_error 500 (codes "could not list wallets")) (list_wallets wallets id.user.id)

  -- The handler of `POST /wallets`.
  unfoldable pub link_handler : Identity → Text → Handler S
  link_handler id body s = elim (server.decode_link body) [
    | none ↦ (write_error 400 (codes "invalid request body"), s)
    | some b ↦ elim (is_valid_role (role_of b.role)) [
      | false ↦ (write_error 400 (codes "invalid wallet role"), s)
      | true ↦
          respond
            (λ w. write_json 201 (
              wallet_json rfc3339
                (record { wallet = w; policy = none; balance = none; balance_error = [] })))
            link_error (link_wallet wallets (requested_link id b)) s
    ]
  ]

  -- The handler of `GET /wallets/{walletID}`.
  unfoldable pub wallet_handler : Identity → Text → Handler S
  wallet_handler id wallet_id =
      respond (λ v. write_json 200 (wallet_json rfc3339 v)) wallet_error
        (get_view wallets id.user.id wallet_id)

  -- The handler of `PUT /wallets/{walletID}/policy`.
  unfoldable pub policy_handler : Identity → Text → Text → Handler S
  policy_handler id wallet_id body s = elim (server.decode_policy body) [
    | none ↦ (write_error 400 (codes "invalid request body"), s)
    | some b ↦
        respond (λ p. write_json 200 (policy_json p)) policy_error
          (change_policy wallets id.user.id wallet_id (requested_policy b) (actor_of id)) s
  ]

  -- The routes under `/api/miniapp`.
  unfoldable pub miniapp_route : Route → Text → Identity → Handler S
  miniapp_route session body id s = (write_json 200 (session_json chain_id id), s)
  miniapp_route list_route body id s = list_handler id s
  miniapp_route link_route body id s = link_handler id body s
  miniapp_route (wallet_route wallet_id) body id s = wallet_handler id wallet_id s
  miniapp_route (policy_route wallet_id) body id s = policy_handler id wallet_id body s
  miniapp_route _ body id s = (no_route, s)

  -- `requireInitData` around the routes of the Mini App.
  unfoldable pub require_init_data : MiniAppAuth S → HttpRequest → Handler S
  require_init_data a r s =
      if text_eq (init_data r) []
      then (write_error 401 (codes "missing init data"), s)
      else let (answer, s1) = authenticate a (init_data r) s in
        elim answer [
          | err _ ↦ (write_error 401 (codes "unauthorized"), s1)
          | ok id ↦ miniapp_route r.route r.body id s1
        ]

  -- The handler of `/readyz`.
  unfoldable pub ready_handler : Handler S
  ready_handler s =
      let (report, s1) = check health s in
      (write_json (elim report.status [ down ↦ 503 | _ ↦ 200 ]) (server.report_json report), s1)

  -- The routes of the Mini App, which exist only where it is configured.
  unfoldable pub miniapp : HttpRequest → Handler S
  miniapp r s = elim auth [ none ↦ (no_route, s) | some a ↦ require_init_data a r s ]

  -- The router of `New`.
  unfoldable pub serve_route : Route → HttpRequest → Handler S
  serve_route healthz r s =
      (write_json 200 (object (field (codes "status") (string (codes "ok")) no_fields)), s)
  serve_route readyz r s = ready_handler s
  serve_route version r s = (write_json 200 server.build_json, s)
  serve_route unknown_route r s = (no_route, s)
  serve_route _ r s = miniapp r s

  unfoldable pub serve : HttpRequest → Handler S
  serve r = serve_route r.route r
