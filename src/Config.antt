-- ===== src/Config.antt =====
-- internal/config/config.go: the configuration and its checks.
pub mod Env
pub mod Load
pub mod Bounds
pub mod Allowed
pub mod Limits
use hoodalpha.Prelude.{◌==◌, length, ℕ, String, Bool, true, false, not, ◌&&◌, ◌||◌, List, [], ◌∷◌}
use hoodalpha.Prelude.Int.{ℤ, pos, leb_ℤ, ltb_ℤ}
use hoodalpha.Go.Text.{Text, codes, text_eq, to_lower}
use hoodalpha.Go.Error.{Error, new, joined, Result, ok, err}
use hoodalpha.Go.Time.{Duration}
use hoodalpha.Go.Float.{Float, literal, fle}

-- `ChainConfig`
pub record ChainConfig : Type 0 where
  pub chain_id : ℕ
  pub rpc_url : Text
  pub ws_url : Text
  pub request_timeout : Duration
  pub max_retries : ℤ
  pub retry_backoff : Duration
  pub block_stale_after : Duration

-- `PostgresConfig`
pub record PostgresConfig : Type 0 where
  pub url : Text
  pub max_conns : ℤ
  pub min_conns : ℤ
  pub max_conn_lifetime : Duration
  pub max_conn_idle_time : Duration
  pub connect_timeout : Duration

-- `RedisConfig`
pub record RedisConfig : Type 0 where
  pub addr : Text
  pub password : Text
  pub db : ℤ
  pub pool_size : ℤ

-- `WorkerConfig`
pub record WorkerConfig : Type 0 where
  pub concurrency : ℤ
  pub queues : List (Text × ℕ)
  pub shutdown_timeout : Duration

-- `RiskConfig`
pub record RiskConfig : Type 0 where
  pub stop_loss_percent : Float
  pub capital_recovery_percent : Float
  pub max_position_percent : Float
  pub max_open_positions : ℤ
  pub daily_loss_limit_percent : Float
  pub max_slippage_bps : ℤ
  pub min_liquidity_usd : Float
  pub min_score : Float

-- `TelegramConfig`
pub record TelegramConfig : Type 0 where
  pub bot_token : Text
  pub allowed_user_ids : List ℤ
  pub miniapp_url : Text
  pub initdata_ttl : Duration
  pub rate_limit : ℤ
  pub rate_window : Duration

-- `Config`
pub record Config : Type 0 where
  pub app_env : Text
  pub log_level : Text
  pub log_json : Bool
  pub http_addr : Text
  pub shutdown_timeout : Duration
  pub chain : ChainConfig
  pub postgres : PostgresConfig
  pub redis : RedisConfig
  pub worker : WorkerConfig
  pub risk : RiskConfig
  pub telegram : TelegramConfig

-- `TelegramConfig.Enabled`
unfoldable pub enabled : TelegramConfig → Bool
enabled t = not (text_eq t.bot_token [])

-- `Config.IsProduction`, for a text of ASCII letters.
unfoldable pub is_production : Config → Bool
is_production c = text_eq (to_lower c.app_env) (codes "production")

-- `DefaultQueues`
abbrev pub default_queues : List (Text × ℕ)
default_queues =
    (codes "critical", 6)
    ∷ (codes "default", 3)
    ∷ (codes "analysis", 2)
    ∷ (codes "market", 2)
    ∷ (codes "notifications", 2)
    ∷ (codes "maintenance", 1)
    ∷ []

joined_from : Error → List Error → Error
joined_from e [] = e
joined_from e (f ∷ rest) = joined e (joined_from f rest)

-- `errors.Join` of errors that are not nil: nil if there are none.
unfoldable pub join_all : List Error → Result Unit
unfolding joined_from
join_all [] = ok tt
join_all (e ∷ rest) = err (joined_from e rest)

-- The texts of the tests that hold.
unfoldable pub complaints : List (Bool × String) → List Error
complaints [] = []
complaints ((c, text) ∷ rest) =
    let more = complaints rest in elim c [ true ↦ new (codes text) ∷ more | false ↦ more ]

-- The tests of `validate`, in its order.
abbrev pub config_checks : Config → List (Bool × String)
config_checks c =
    (text_eq c.postgres.url [], "POSTGRES_URL is required")
    ∷ (text_eq c.chain.rpc_url [], "RH_RPC_URL is required")
    ∷ (c.chain.chain_id == 0, "RH_CHAIN_ID must be non-zero")
    ∷ (text_eq c.redis.addr [], "REDIS_ADDR is required")
    ∷ (ltb_ℤ c.postgres.max_conns (pos 1), "POSTGRES_MAX_CONNS must be >= 1")
    ∷ (
      ltb_ℤ c.postgres.min_conns (pos 0) || ltb_ℤ c.postgres.max_conns c.postgres.min_conns,
      "POSTGRES_MIN_CONNS must be between 0 and POSTGRES_MAX_CONNS",
    )
    ∷ (ltb_ℤ c.worker.concurrency (pos 1), "WORKER_CONCURRENCY must be >= 1")
    ∷ (ltb_ℤ c.chain.max_retries (pos 0), "RH_MAX_RETRIES must be >= 0")
    ∷ (leb_ℤ c.chain.request_timeout (pos 0), "RH_REQUEST_TIMEOUT must be > 0")
    ∷ (
      fle c.risk.stop_loss_percent (literal 0) || fle (literal 100) c.risk.stop_loss_percent,
      "STOP_LOSS_PERCENT must be in (0,100)",
    )
    ∷ (fle c.risk.capital_recovery_percent (literal 0), "CAPITAL_RECOVERY_PERCENT must be > 0")
    ∷ (ltb_ℤ c.risk.max_open_positions (pos 1), "MAX_OPEN_POSITIONS must be >= 1")
    ∷ (
      ltb_ℤ c.risk.max_slippage_bps (pos 0) || ltb_ℤ (pos 10000) c.risk.max_slippage_bps,
      "MAX_SLIPPAGE_BPS must be in [0,10000]",
    )
    ∷ (
      enabled c.telegram && length c.telegram.allowed_user_ids == 0,
      "TELEGRAM_ALLOWED_USER_IDS is required when TELEGRAM_BOT_TOKEN is set",
    )
    ∷ (leb_ℤ c.telegram.initdata_ttl (pos 0), "TELEGRAM_INITDATA_TTL must be > 0")
    ∷ (ltb_ℤ c.telegram.rate_limit (pos 1), "TELEGRAM_RATE_LIMIT must be >= 1")
    ∷ []

-- `Config.validate`
unfoldable pub validate_config : Config → Result Unit
validate_config c = join_all (complaints (config_checks c))
