-- ===== src/Cmd.antt =====
-- cmd/api, cmd/bot and cmd/worker: how the processes make their parts from the configuration and the
-- connections, and what they open and close. What the constructors make of an open connection is the
-- interface `Ports`; what the libraries compute is `Libraries`.
pub mod Api
pub mod Bot
pub mod Worker
pub mod Migrate
pub mod Running
pub mod Healthcheck
use hoodalpha.Prelude.{if◌then◌else◌, ℕ, Option, some, List, [], ◌∷◌}
use hoodalpha.Go.Text.{Text}
use hoodalpha.Go.Error.{canceled, is, Result, ok, err}
use hoodalpha.Go.Exec.{Exec}
use hoodalpha.Go.Time.{Time, Duration}
use hoodalpha.Go.Float.{Float}
use hoodalpha.Domain.User.{new_allowlist}
use hoodalpha.Domain.Health.{HealthReport}
use hoodalpha.App.Ports.{UserStore, WalletStore, AuditStore, TaskEnqueuer, AddressProbe}
use hoodalpha.App.Wallets.{WalletService}
use hoodalpha.App.Onboarding.{Onboarding}
use hoodalpha.App.ChainSync.{SyncStateStore, ChainProbe, ChainSync}
use hoodalpha.App.Health.{HeadWatcher, HealthChecker, new_health_checker}
use hoodalpha.Telegram.Limiter.{Permit}
use hoodalpha.Http.Bodies.{Json}
use hoodalpha.Http.Requests.{LinkBody, PolicyBody}
use hoodalpha.Queue.{Payloads}
use hoodalpha.Config.{Config}
use hoodalpha.Config.Env.{Environment}
use hoodalpha.Config.Load.{load}
use hoodalpha.Config.Allowed.{to_telegram_ids}
use hoodalpha.Config.Limits.{default_policy}
use hoodalpha.Bootstrap.{
  Handle, postgres, redis, chain, Wanted, with_postgres, with_redis, with_chain, nothing_wanted,
  switched, Infrastructure, close_all, new_deps,
}
use hoodalpha.InitData.Types.{Library, ReplayGuard}

-- What the constructors give over the open connections and the clock: the repositories, the chain
-- client, the two pings, the replay guard and the rate limiter for a prefix of keys, and the enqueuer.
pub record Ports (S : Type 0) : Type 0 where
  pub users : UserStore S
  pub wallets : WalletStore S
  pub audit : AuditStore S
  pub sync_state : SyncStateStore S
  pub addresses : AddressProbe S
  pub blocks : ChainProbe S
  pub ping_postgres : Exec S Unit
  pub ping_redis : Exec S Unit
  pub first_use : Text → ReplayGuard S
  pub allow : Text → Text → ℕ → Duration → S → Permit × S
  pub queue : TaskEnqueuer S
  pub now : S → Time

-- The libraries: cryptography, JSON, texts of instants, durations and numbers, and the version.
pub record Libraries : Type 0 where
  pub crypto : Library
  pub payloads : Payloads
  pub decode_link : Text → Option LinkBody
  pub decode_policy : Text → Option PolicyBody
  pub report_json : HealthReport → Json
  pub build_json : Json
  pub rfc3339 : Time → Text
  pub duration_text : Duration → Text
  pub fixed_1 : Float → Text
  pub version : Text

module _ {S : Type 0} (ports : Ports S) (c : Config) where
  -- `NewWalletService` with the `WalletServiceDeps` of the three commands.
  abbrev pub new_wallet_service : WalletService S
  new_wallet_service = record {
    wallets = ports.wallets;
    audit = some ports.audit;
    chain = some ports.addresses;
    queue = some ports.queue;
    chain_id = c.chain.chain_id;
    defaults = default_policy c;
    now = ports.now;
  }

  -- `NewOnboarding`, with the allowlist of the configuration.
  abbrev pub new_onboarding : Onboarding S
  new_onboarding = record {
    users = ports.users;
    audit = some ports.audit;
    allowlist = new_allowlist (to_telegram_ids c.telegram.allowed_user_ids);
  }

  -- `NewChainSync`
  abbrev pub new_chain_sync : ChainSync S
  new_chain_sync = record {
    chain = ports.blocks;
    store = ports.sync_state;
    chain_id = c.chain.chain_id;
  }

  -- `NewHealthChecker` with the `HealthCheckerDeps` of the three commands; only the API may have a head.
  abbrev pub command_health : Libraries → Option (HeadWatcher S) → HealthChecker S
  command_health libraries head = new_health_checker (record {
    postgres = some ports.ping_postgres;
    redis = some ports.ping_redis;
    chain = some ports.blocks;
    head = head;
    expected_chain = c.chain.chain_id;
    stale_after = c.chain.block_stale_after;
    version = libraries.version;
    now = ports.now;
    rfc3339 = libraries.rfc3339;
  })

-- `err != nil && !errors.Is(err, context.Canceled)`: a cancellation is no failure.
unfoldable pub unless_canceled : Result Unit → Result Unit
unless_canceled (ok _) = ok tt
unless_canceled (err e) = if is e canceled then ok tt else err e

abbrev exit_of : Result Unit → ℕ
exit_of (ok _) = 0
exit_of (err _) = 1

-- The exit code of `main`.
unfoldable pub exit_code : Result Unit → ℕ
unfolding unless_canceled
exit_code r = exit_of (unless_canceled r)

-- `WithPostgres`, `WithRedis` and `WithChain`, which the three commands ask for.
abbrev pub all_connections : Wanted
all_connections = switched (with_postgres ∷ with_redis ∷ with_chain ∷ []) nothing_wanted

module _ {S : Type 0} (env : Environment) (infra : Infrastructure S)
    (close_queue : Exec S Unit) where
  -- Behind `bootstrap.New`: the body, and then what was deferred. The errors of the closers are logged.
  abbrev pub behind_open : Exec S Unit → Result (List Handle) × S → Result Unit × S
  behind_open body (err e, s) = (err e, s)
  behind_open body (ok handles, s) =
      let (r, s1) = body s in
      let (_, s2) = close_queue s1 in let (_, s3) = close_all infra handles s2 in (r, s3)

  unfoldable pub with_deps : Exec S Unit → Exec S Unit
  with_deps body s = behind_open body (new_deps infra all_connections s)

  abbrev pub behind_check : Exec S Unit → Result Unit → Exec S Unit
  behind_check body (err e) s = (err e, s)
  behind_check body (ok _) s = with_deps body s

  -- Behind `Load`: the test of the command itself, and the body between opening and closing.
  abbrev pub behind_load :
      (Config → Result Unit) → (Config → Exec S Unit) → Result Config → Exec S Unit
  behind_load precheck body (err e) s = (err e, s)
  behind_load precheck body (ok c) s = behind_check (body c) (precheck c) s

  -- `run` of a command.
  unfoldable pub run_process : (Config → Result Unit) → (Config → Exec S Unit) → Exec S Unit
  run_process precheck body = behind_load precheck body (load env)
