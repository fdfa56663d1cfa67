-- ===== src/Cmd/Api.antt =====
-- `run` of cmd/api/main.go.
pub mod Admission
use hoodalpha.Prelude.{if◌then◌else◌, Option, none, some, []}
use hoodalpha.Prelude.Int.{pos}
use hoodalpha.Go.Text.{codes, text_eq}
use hoodalpha.Go.Error.{Result, ok, err}
use hoodalpha.Go.Exec.{Exec, lift, attempt, ◌>>=◌, ◌>>◌}
use hoodalpha.App.MiniApp.{MiniAppAuth}
use hoodalpha.App.Health.{HeadWatcher}
use hoodalpha.App.ChainSync.{ChainSync, last_seen}
use hoodalpha.InitData.{new_verifier, verify}
use hoodalpha.InitData.Guard.{new_replay_guard}
use hoodalpha.Http.Requests.{Server}
use hoodalpha.Chain.Subscriber.{SubscriberOptions, new_head_subscriber}
use hoodalpha.Config.{Config, enabled}
use hoodalpha.Config.Env.{Environment}
use hoodalpha.Bootstrap.{Infrastructure}
use hoodalpha.Cmd.{
  Ports, Libraries, new_wallet_service, new_onboarding, new_chain_sync, command_health,
  unless_canceled, run_process,
}
use hoodalpha.InitData.Types.{Verifier, Options}

-- The subscriber to the heads, which is there only with an address for it.
unfoldable pub head_options : Config → Option SubscriberOptions
head_options c =
    if text_eq c.chain.ws_url []
    then none
    else some (
        new_head_subscriber (record {
          ws_url = c.chain.ws_url;
          expected_chain = c.chain.chain_id;
          dial_timeout = c.chain.request_timeout;
          reconnect_base = pos 0;
          reconnect_max = pos 0;
        }))

module _ {S : Type 0} (libraries : Libraries) (ports : Ports S) (c : Config) where
  open libraries use {crypto}

  -- The `initdata.Options` of the Mini App: the guard in Redis, and the clock and its tolerance by default.
  abbrev pub verifier_options : Options S
  verifier_options = record {
    bot_token = c.telegram.bot_token;
    ttl = c.telegram.initdata_ttl;
    guard = some (ports.first_use (new_replay_guard (codes "miniapp")));
    now = ports.now;
    clock_skew = pos 0;
  }

  -- `NewMiniAppAuth` over a verifier.
  abbrev pub new_mini_app_auth : Verifier S → MiniAppAuth S
  new_mini_app_auth v = record {
    verifier = some (verify crypto v);
    onboarding = new_onboarding ports c;
    audit = some ports.audit;
  }

  abbrev pub verified_by : Result (Verifier S) → Result (Option (MiniAppAuth S))
  verified_by (err e) = err e
  verified_by (ok v) = ok (some (new_mini_app_auth v))

  -- The authentication of the Mini App, which is there only with the token of a bot.
  unfoldable pub api_auth : Result (Option (MiniAppAuth S))
  api_auth =
      if enabled c.telegram then verified_by (new_verifier crypto verifier_options) else ok none

  -- `httpapi.New`. The wallets are left out where there is no authentication, and then no route reads them.
  abbrev pub new_server : Option (HeadWatcher S) → Option (MiniAppAuth S) → Server S
  new_server head auth = record {
    health = command_health ports c libraries head;
    auth = auth;
    wallets = new_wallet_service ports c;
    chain_id = c.chain.chain_id;
    decode_link = libraries.decode_link;
    decode_policy = libraries.decode_policy;
    report_json = libraries.report_json;
    build_json = libraries.build_json;
    rfc3339 = libraries.rfc3339;
  }

  abbrev pub served_by :
      Option (HeadWatcher S) → Result (Option (MiniAppAuth S)) → Result (Server S)
  served_by head (err e) = err e
  served_by head (ok auth) = ok (new_server head auth)

  -- The server of the API, with the head that its subscriber watches, if there is one.
  unfoldable pub api_server : Option (HeadWatcher S) → Result (Server S)
  unfolding api_auth
  api_server head = served_by head api_auth

-- What the API runs until it ends: the server, and the subscriber, whose heads are recorded. The answer
-- is that of `g.Wait`. The watcher of a subscriber is its two methods.
pub record Serving (S : Type 0) : Type 0 where
  pub watcher : SubscriberOptions → HeadWatcher S
  pub serve_until : Server S → Option SubscriberOptions → ChainSync S → Exec S Unit

abbrev pub watched :
    {S : Type 0}
    → (SubscriberOptions → HeadWatcher S)
    → Option SubscriberOptions
    → Option (HeadWatcher S)
watched watcher none = none
watched watcher (some o) = some (watcher o)

module _ {S : Type 0} (libraries : Libraries) (ports : Ports S) (serving : Serving S) where
  -- The body of `run`: the last persisted head is read for the log.
  unfoldable pub api_body : Config → Exec S Unit
  unfolding api_server
  api_body c = do
    attempt (last_seen (new_chain_sync ports c))
    server ← lift (api_server libraries ports c (watched serving.watcher (head_options c)))
    λ s.
        let (r, s') = serving.serve_until server (head_options c) (new_chain_sync ports c) s in
        (unless_canceled r, s')

  -- `run`
  unfoldable pub run_api : Environment → Infrastructure S → Exec S Unit → Exec S Unit
  unfolding api_body
  run_api env infra close_queue = run_process env infra close_queue (λ _. ok tt) api_body
