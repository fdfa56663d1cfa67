-- ===== src/Examples/Web.antt =====
-- Requests to the server.
use hoodalpha.Prelude.{ℕ, ◌≡◌, refl, true, false, Option, none, some, [], arith}
use hoodalpha.Prelude.Int.{pos}
use hoodalpha.Go.Text.{Text, codes, text_eq}
use hoodalpha.Go.Error.{new, ok}
use hoodalpha.Go.Exec.{fail}
use hoodalpha.Go.Time.{minute}
use hoodalpha.Go.Float.{literal}
use hoodalpha.Domain.User.{is_valid_id, is_active, new_allowlist, allows}
use hoodalpha.Domain.Chain.{mainnet}
use hoodalpha.Postgres.Tables.{err_not_found, statement}
use hoodalpha.Postgres.Wallets.{get_wallet}
use hoodalpha.App.Onboarding.{Identity, authorize}
use hoodalpha.App.MiniApp.{MiniAppAuth, authenticate}
use hoodalpha.App.Wallets.{WalletService}
use hoodalpha.App.Health.{HealthChecker}
use hoodalpha.Http.{
  wallet_handler, policy_handler, miniapp_route, require_init_data, miniapp, serve_route, serve,
}
use hoodalpha.Http.Bodies.{string}
use hoodalpha.Http.Sessions.{answered_to_user}
use hoodalpha.Http.Answers.{no_enumeration}
use hoodalpha.System.{World, wallet_service}
use hoodalpha.Examples.Rules.{limits}
use hoodalpha.Examples.Store.{pg, alice, row, linked_world}
use hoodalpha.Examples.Signed.{desk, accepting, gate}
use hoodalpha.Http.Requests.{Route, session, HttpRequest, PolicyBody, Server, init_data}
use hoodalpha.InitData.Types.{Data}

abbrev limits_body : PolicyBody
limits_body = record {
  max_position_percent = literal 10;
  max_open_positions = pos 0;
  daily_loss_limit_percent = literal 15;
  stop_loss_percent = literal 35;
  capital_recovery_percent = literal 100;
  max_slippage_bps = pos 300;
  min_liquidity_usd = literal 1000;
  trading_enabled = false;
}

-- A health check without a component.
abbrev idle : {S : Type 0} → HealthChecker S
idle = record {
  postgres = none;
  redis = none;
  chain = none;
  head = none;
  expected_chain = 0;
  stale_after = pos minute;
  version = [];
  now = λ _. pos 0;
  rfc3339 = λ _. [];
}

abbrev pub server_of :
    {S : Type 0} → HealthChecker S → Option (MiniAppAuth S) → WalletService S → Server S
server_of health auth wallets = record {
  health = health;
  auth = auth;
  wallets = wallets;
  chain_id = mainnet;
  decode_link = λ _. none;
  decode_policy = λ _. some limits_body;
  report_json = λ _. string [];
  build_json = string [];
  rfc3339 = λ _. [];
}

-- The server over the repositories.
abbrev web : Server World
web = server_of idle none (wallet_service pg 4663 limits)

-- A store that knows nothing, for a server whose wallets are not asked for.
abbrev pub empty_service : {S : Type 0} → WalletService S
empty_service = record {
  wallets = record {
    link = λ _ _. fail (new []);
    get_wallet = λ _. fail (new []);
    list_by_user = λ _. fail (new []);
    mark_verified = λ _ _. fail (new []);
    set_status = λ _ _. fail (new []);
    get_policy = λ _. fail (new []);
    update_policy = λ _ _. fail (new []);
  };
  audit = none;
  chain = none;
  queue = none;
  chain_id = mainnet;
  defaults = limits;
  now = λ _. pos 0;
}

abbrev pub request_for : Route → HttpRequest
request_for route = record {
  route = route;
  init_data_header = codes "data";
  authorization = [];
  body = [];
}

abbrev front : Server ℕ
front = server_of idle (some (gate accepting)) empty_service

session_answer : (serve front (request_for session) 0).0.status ≡ 200
unfolding serve serve_route miniapp require_init_data text_eq init_data codes authenticate authorize
    is_valid_id allows new_allowlist miniapp_route
session_answer = refl

answered_to_user_example :
    (id : Identity) × (payload : Data) × ((accepting (init_data (request_for session)) 0).0
      ≡ ok payload)
    × (payload.user.is_bot ≡ false)
    × (allows desk.allowlist payload.user.id ≡ true)
    × (is_active id.user.status ≡ true)
    × ((authenticate (gate accepting) (init_data (request_for session)) 0).0 ≡ ok id)
    × (serve front (request_for session) 0
        ≡ miniapp_route front session
            (request_for session).body
            id
            (authenticate (gate accepting) (init_data (request_for session)) 0).1)
answered_to_user_example =
    answered_to_user front (gate accepting) accepting (request_for session) 0 refl refl refl
      (λ e. ground (arith, session_answer, e))

-- An account, with the name that the telegram identity has there.
abbrev account : Text → Identity
account name = record {
  user = record alice { id = name };
  telegram = record {
    telegram_id = pos 7;
    user_id = name;
    username = [];
    first_name = [];
    last_name = [];
    language_code = [];
    chat_id = pos 7;
    created_at = pos 0;
    updated_at = pos 0;
    last_seen_at = pos 0;
  };
  first_contact = false;
}

no_enumeration_example :
    ((wallet_handler web (account (codes "bob")) (codes "a") linked_world).0
      ≡ (wallet_handler web (account (codes "bob")) (codes "b") linked_world).0)
    × ((policy_handler web (account (codes "bob")) (codes "a") [] linked_world).0
        ≡ (policy_handler web (account (codes "bob")) (codes "b") [] linked_world).0)
unfolding codes get_wallet statement text_eq
no_enumeration_example =
    no_enumeration web (account (codes "bob")) (codes "a") (codes "b") [] limits_body row
      err_not_found linked_world linked_world refl (λ e. ground arith) refl refl refl
