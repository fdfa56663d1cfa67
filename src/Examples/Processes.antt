-- ===== src/Examples/Processes.antt =====
-- The commands over small parts, with the configuration of a bot in production.
use hoodalpha.Prelude.{ℕ, ◌+◌, ◌≡◌, refl, true, false, none, some, List, [], ◌∷◌}
use hoodalpha.Prelude.Int.{pos, to_word64, to_int32}
use hoodalpha.Go.Text.{
  Text, codes, text_eq, is_space, trim_space, fields, has_prefix, trim_prefix, before, split, lower,
  to_lower, decimal, decimal_ℤ, parse_int64, parse_uint64,
}
use hoodalpha.Go.Error.{Error, new, ok, err, is_ok}
use hoodalpha.Go.Exec.{pure, fail}
use hoodalpha.Go.Float.{units, literal, fle}
use hoodalpha.Domain.User.{is_valid_id}
use hoodalpha.App.Ports.{record_audit}
use hoodalpha.App.Onboarding.{not_in_allowlist, record_command}
use hoodalpha.Http.{serve}
use hoodalpha.Http.Bodies.{string}
use hoodalpha.Http.Requests.{readyz}
use hoodalpha.Telegram.Router.{send, dispatch_command, dispatch}
use hoodalpha.Telegram.Register.{
  RouterOptions, new_router, register, help_text, help_lists_commands,
}
use hoodalpha.Telegram.Parse.{parse_command}
use hoodalpha.Queue.{with_skip_retry, is_skip_retry}
use hoodalpha.Queue.Server.{
  sync_head_task, TaskHandler, Mux, handle_task, handler_of, handle_task_lem,
}
use hoodalpha.Config.{Config, enabled, join_all, complaints, validate_config}
use hoodalpha.Config.Env.{
  Environment, parse_bool, parts_of, read_ids, get_string, getenv, get_int, get_int32, get_uint,
  get_float, get_bool, get_int64_list, get_duration,
}
use hoodalpha.Config.Load.{
  load_chain, load_postgres, load_redis, load_worker, load_risk, load_telegram, read_config, load,
}
use hoodalpha.Cmd.{Ports, Libraries}
use hoodalpha.Cmd.Bot.{router_options, command_deps, bot_router}
use hoodalpha.Cmd.Bot.Strangers.{bot_refuses}
use hoodalpha.Cmd.Worker.{worker_handlers}
use hoodalpha.Cmd.Worker.Tasks.{Covers, worker_handlers-Covers}
use hoodalpha.Cmd.Healthcheck.{healthcheck_exit, healthcheck_exactly}
use hoodalpha.Domain.Address.{quote}
use hoodalpha.Examples.Settings.{found_in, small_env}
use hoodalpha.Examples.Signed.{toy, desk}
use hoodalpha.Examples.Tasks.{plain_payloads}
use hoodalpha.Examples.Web.{server_of, empty_service, request_for}
use hoodalpha.Examples.Chat.{update, let_in}
use hoodalpha.Telegram.Commands.{CommandDeps}
use hoodalpha.App.Health.{check}
use hoodalpha.Domain.Health.{aggregate}
use hoodalpha.Examples.Rules.{checker}
use hoodalpha.Telegram.Table.{Router, handle}
use hoodalpha.Domain.Audit.{outcome_ok}

abbrev variables : List (Text × Text)
variables =
    (codes "POSTGRES_URL", codes "postgres://db")
    ∷ (codes "TELEGRAM_BOT_TOKEN", codes "12:ab")
    ∷ (codes "TELEGRAM_ALLOWED_USER_IDS", codes "7,12")
    ∷ (codes "APP_ENV", codes "Production")
    ∷ []

abbrev pub bot_env : Environment
bot_env = record small_env { lookup_env = found_in variables }

unfoldable pub bot_loaded : (c : Config) × (load bot_env ≡ ok c)
unfolding load join_all read_config get_bool text_eq codes get_duration load_chain get_uint get_int
    load_postgres get_int32 load_redis load_worker load_risk get_float load_telegram get_int64_list
    get_string getenv parse_bool parts_of read_ids complaints enabled validate_config quote fle
    literal units decimal decimal_ℤ parse_int64 parse_uint64 split is_space trim_space to_int32
    to_word64
bot_loaded = (_, refl)

abbrev pub small_libraries : Libraries
small_libraries = record {
  crypto = toy;
  payloads = plain_payloads;
  decode_link = λ _. none;
  decode_policy = λ _. none;
  report_json = λ _. string [];
  build_json = string [];
  rfc3339 = λ _. [];
  duration_text = λ _. codes "1m0s";
  fixed_1 = λ _. [];
  version = codes "dev";
}

-- Each account that is asked for is active, each first use is one, and it is second 105.
abbrev pub small_ports : Ports ℕ
small_ports = record {
  users = desk.users;
  wallets = empty_service.wallets;
  audit = record { record_event = λ _ n. (ok tt, n + 1); time_now = λ _. pos 0 };
  sync_state = record { save_head = λ _ _ _. pure tt; load_head = λ _. pure none };
  addresses = record { chain_id = pure 4663; balance_at = λ _ _. fail (new []) };
  blocks = record { chain_id = pure 4663; latest_block = fail (new []) };
  ping_postgres = pure tt;
  ping_redis = pure tt;
  first_use = λ _ _ _. pure true;
  allow = λ _ _ _ _ n. (record { allowed = true; remaining = 0; failure = none }, n);
  queue = record { enqueue_wallet_verify = λ _. pure tt; enqueue_notification = λ _ _. pure tt };
  now = λ _. pos 105_000_000_000;
}

command_router : (r : Router ℕ) × (bot_router small_libraries small_ports bot_loaded.0 ≡ some r)
unfolding bot_router register new_router handle codes text_eq trim_prefix to_lower
command_router = (_, refl)

bot_refuses_example :
    dispatch command_router.0 none (update (pos 8)) 0
    ≡ send command_router.0 none
        (pos 1)
        (codes "Not authorized.")
        (record_audit (some small_ports.audit) (not_in_allowlist (pos 8)) 0).1
unfolding codes parse_command trim_space is_space has_prefix trim_prefix fields before to_lower
    lower text_eq is_valid_id bot_loaded
bot_refuses_example =
    bot_refuses small_libraries small_ports bot_loaded.0 command_router.0 command_router.1 bot_env
      none (update (pos 8)) 0 bot_loaded.1 refl refl refl refl

worker_handlers-Covers_example :
    (mux : Mux ℕ) × (worker_handlers small_libraries small_ports bot_loaded.0 none ≡ some mux)
    × Covers bot_loaded.0.worker.queues (codes "a") false mux
worker_handlers-Covers_example =
    worker_handlers-Covers small_libraries small_ports bot_loaded.0 bot_env none (codes "a")
      bot_loaded.1

abbrev bot_deps : CommandDeps ℕ
bot_deps = command_deps small_libraries small_ports bot_loaded.0

abbrev bot_options : RouterOptions ℕ
bot_options = router_options small_libraries small_ports bot_loaded.0

help_lists_commands_example :
    (r : Router ℕ) × (register bot_deps (new_router (λ _. []) bot_options) ≡ some r)
    × (dispatch_command r none (update (pos 7)) (codes "help") [] let_in.0 0
        ≡ send r none
            (pos 1)
            help_text
            (record_command bot_options.onboarding (pos 7) (codes "help") outcome_ok 0).1)
help_lists_commands_example =
    help_lists_commands (λ _. []) bot_options bot_deps none (update (pos 7)) [] let_in.0 0

-- A handler that counts its runs and asks for no further one.
abbrev giving_up : TaskHandler ℕ
giving_up _ n = (err (with_skip_retry (new [])), n + 1)

registered : (mux : Mux ℕ) × (handle_task sync_head_task giving_up [] ≡ some mux)
unfolding handle_task
registered = (_, refl)

handle_task_lem_example :
    (entry : Text × TaskHandler ℕ) × (handler_of sync_head_task registered.0 ≡ some entry)
    × ((entry.1 [] 0).1 ≡ (giving_up [] 0).1)
    × (is_ok (entry.1 [] 0).0 ≡ is_ok (giving_up [] 0).0)
    × ((e : Error)
        → (giving_up [] 0).0 ≡ err e
        → (f : Error) × ((entry.1 [] 0).0 ≡ err f) × (is_skip_retry f ≡ is_skip_retry e))
handle_task_lem_example = handle_task_lem sync_head_task [] giving_up [] registered.0 0 registered.1

healthcheck_exactly_example :
    healthcheck_exit
      (ok (serve (server_of checker none empty_service) (request_for readyz) (pos 0)).0.status)
    ≡ 1
unfolding check aggregate
healthcheck_exactly_example =
    healthcheck_exactly (server_of checker none empty_service) (request_for readyz) (pos 0) refl
