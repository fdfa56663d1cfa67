-- ===== src/Config/Load.antt =====
-- `Load` of internal/config/config.go.
use hoodalpha.Prelude.{ℕ, ◌*◌, String, Bool, false, List, [], ◌∷◌, ◌++◌}
use hoodalpha.Prelude.Int.{ℤ, pos}
use hoodalpha.Go.Text.{Text, codes}
use hoodalpha.Go.Error.{Error, Result, ok, err}
use hoodalpha.Go.Time.{Duration, second}
use hoodalpha.Go.Float.{Float, finite, literal}
use hoodalpha.Config.{
  ChainConfig, PostgresConfig, RedisConfig, WorkerConfig, RiskConfig, TelegramConfig, Config,
  default_queues, join_all, validate_config,
}
use hoodalpha.Config.Env.{
  Environment, get_string, getenv, get_int, get_int32, get_uint, get_float, get_bool,
  get_int64_list, get_duration,
}

-- The error of a field, for the list of `Load`.
abbrev pub errors_of : {A : Type 0} → Result A → List Error
errors_of (ok _) = []
errors_of (err e) = e ∷ []

-- The value of a field: the zero value beside an error.
abbrev pub or_zero : {A : Type 0} → A → Result A → A
or_zero zero_value (ok a) = a
or_zero zero_value (err _) = zero_value

abbrev pub int_of : Result ℤ → ℤ
int_of = or_zero (pos 0)

abbrev pub float_of : Result Float → Float
float_of = or_zero (finite (pos 0))

abbrev pub seconds : ℕ → Duration
seconds n = pos (n * second)

module _ (env : Environment) where
  abbrev pub key_int : String → ℤ → Result ℤ
  key_int key default = get_int env (codes key) default

  abbrev pub key_duration : String → Duration → Result Duration
  key_duration key default = get_duration env (codes key) default

  abbrev pub key_float : String → ℕ → Result Float
  key_float key default = get_float env (codes key) (literal default)

  abbrev pub key_string : String → String → Text
  key_string key default = get_string env (codes key) (codes default)

  -- The fields of `Load`, each with its variable and its default.
  abbrev pub read_log_json : Result Bool
  read_log_json = get_bool env (codes "LOG_JSON") false

  abbrev pub read_chain_id : Result ℕ
  read_chain_id = get_uint env (codes "RH_CHAIN_ID") 4663

  abbrev pub read_max_conns : Result ℤ
  read_max_conns = get_int32 env (codes "POSTGRES_MAX_CONNS") (pos 10)

  abbrev pub read_min_conns : Result ℤ
  read_min_conns = get_int32 env (codes "POSTGRES_MIN_CONNS") (pos 1)

  abbrev pub read_allowed : Result (List ℤ)
  read_allowed = get_int64_list env (codes "TELEGRAM_ALLOWED_USER_IDS")

  unfoldable pub load_chain : ChainConfig × List Error
  load_chain =
      let id = read_chain_id in
      let timeout = key_duration "RH_REQUEST_TIMEOUT" (seconds 10) in
      let retries = key_int "RH_MAX_RETRIES" (pos 3) in
      let backoff = key_duration "RH_RETRY_BACKOFF" (pos 250_000_000) in
      let stale = key_duration "RH_BLOCK_STALE_AFTER" (seconds 120) in
      (
        record {
          chain_id = or_zero 0 id;
          rpc_url = key_string "RH_RPC_URL" "https://rpc.mainnet.chain.robinhood.com";
          ws_url = key_string "RH_WS_URL" "";
          request_timeout = int_of timeout;
          max_retries = int_of retries;
          retry_backoff = int_of backoff;
          block_stale_after = int_of stale;
        },
        errors_of id
            ++ errors_of timeout
            ++ errors_of retries
            ++ errors_of backoff
            ++ errors_of stale,
      )

  unfoldable pub load_postgres : PostgresConfig × List Error
  load_postgres =
      let most = read_max_conns in
      let least = read_min_conns in
      let lifetime = key_duration "POSTGRES_MAX_CONN_LIFETIME" (seconds 3600) in
      let idle = key_duration "POSTGRES_MAX_CONN_IDLE_TIME" (seconds 1800) in
      let connect = key_duration "POSTGRES_CONNECT_TIMEOUT" (seconds 10) in
      (
        record {
          url = key_string "POSTGRES_URL" "";
          max_conns = int_of most;
          min_conns = int_of least;
          max_conn_lifetime = int_of lifetime;
          max_conn_idle_time = int_of idle;
          connect_timeout = int_of connect;
        },
        errors_of most
            ++ errors_of least
            ++ errors_of lifetime
            ++ errors_of idle
            ++ errors_of connect,
      )

  unfoldable pub load_redis : RedisConfig × List Error
  load_redis =
      let db = key_int "REDIS_DB" (pos 0) in
      let size = key_int "REDIS_POOL_SIZE" (pos 10) in
      (
        record {
          addr = key_string "REDIS_ADDR" "localhost:6379";
          password = getenv env (codes "REDIS_PASSWORD");
          db = int_of db;
          pool_size = int_of size;
        },
        errors_of db ++ errors_of size,
      )

  unfoldable pub load_worker : WorkerConfig × List Error
  load_worker =
      let concurrency = key_int "WORKER_CONCURRENCY" (pos 10) in
      let timeout = key_duration "WORKER_SHUTDOWN_TIMEOUT" (seconds 30) in
      (
        record {
          concurrency = int_of concurrency;
          queues = default_queues;
          shutdown_timeout = int_of timeout;
        },
        errors_of concurrency ++ errors_of timeout,
      )

  unfoldable pub load_risk : RiskConfig × List Error
  load_risk =
      let stop = key_float "STOP_LOSS_PERCENT" 5 in
      let recovery = key_float "CAPITAL_RECOVERY_PERCENT" 100 in
      let position = key_float "MAX_POSITION_PERCENT" 5 in
      let positions = key_int "MAX_OPEN_POSITIONS" (pos 5) in
      let daily = key_float "DAILY_LOSS_LIMIT_PERCENT" 10 in
      let slippage = key_int "MAX_SLIPPAGE_BPS" (pos 100) in
      let liquidity = key_float "MIN_LIQUIDITY_USD" 10000 in
      let score = key_float "MIN_SCORE" 60 in
      (
        record {
          stop_loss_percent = float_of stop;
          capital_recovery_percent = float_of recovery;
          max_position_percent = float_of position;
          max_open_positions = int_of positions;
          daily_loss_limit_percent = float_of daily;
          max_slippage_bps = int_of slippage;
          min_liquidity_usd = float_of liquidity;
          min_score = float_of score;
        },
        errors_of stop
            ++ errors_of recovery
            ++ errors_of position
            ++ errors_of positions
            ++ errors_of daily
            ++ errors_of slippage
            ++ errors_of liquidity
            ++ errors_of score,
      )

  unfoldable pub load_telegram : TelegramConfig × List Error
  load_telegram =
      let ids = read_allowed in
      let ttl = key_duration "TELEGRAM_INITDATA_TTL" (seconds 900) in
      let limit = key_int "TELEGRAM_RATE_LIMIT" (pos 20) in
      let window = key_duration "TELEGRAM_RATE_WINDOW" (seconds 60) in
      (
        record {
          bot_token = getenv env (codes "TELEGRAM_BOT_TOKEN");
          allowed_user_ids = or_zero [] ids;
          miniapp_url = key_string "TELEGRAM_MINIAPP_URL" "";
          initdata_ttl = int_of ttl;
          rate_limit = int_of limit;
          rate_window = int_of window;
        },
        errors_of ids ++ errors_of ttl ++ errors_of limit ++ errors_of window,
      )

  -- The configuration that `Load` has read, and the errors of its fields in order.
  unfoldable pub read_config : Config × List Error
  read_config =
      let json = read_log_json in
      let timeout = key_duration "SHUTDOWN_TIMEOUT" (seconds 20) in
      let (chain, chain_errors) = load_chain in
      let (postgres, postgres_errors) = load_postgres in
      let (redis, redis_errors) = load_redis in
      let (worker, worker_errors) = load_worker in
      let (risk, risk_errors) = load_risk in
      let (telegram, telegram_errors) = load_telegram in
      (
        record {
          app_env = key_string "APP_ENV" "development";
          log_level = key_string "LOG_LEVEL" "info";
          log_json = or_zero false json;
          http_addr = key_string "HTTP_ADDR" ":8080";
          shutdown_timeout = int_of timeout;
          chain = chain;
          postgres = postgres;
          redis = redis;
          worker = worker;
          risk = risk;
          telegram = telegram;
        },
        errors_of json
            ++ errors_of timeout
            ++ chain_errors
            ++ postgres_errors
            ++ redis_errors
            ++ worker_errors
            ++ risk_errors
            ++ telegram_errors,
      )

  -- `Load`
  unfoldable pub load : Result Config
  load = elim (join_all read_config.1) [
    | err e ↦ err e
    | ok _ ↦ elim (validate_config read_config.0) [ err e ↦ err e | ok _ ↦ ok read_config.0 ]
  ]
