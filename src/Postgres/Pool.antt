-- ===== src/Postgres/Pool.antt =====
-- internal/persistence/postgres/postgres.go: the pool of connections. pgxpool is a parameter.
use hoodalpha.Prelude.{if◌then◌else◌, ◌*◌, List, [], ◌∷◌}
use hoodalpha.Prelude.Int.{ℤ, pos}
use hoodalpha.Go.Text.{Text, codes, text_eq}
use hoodalpha.Go.Error.{wrap, Result, ok, err}
use hoodalpha.Go.Exec.{Exec, lift, wrapping, attempt, ◌>>=◌, ◌>>◌}
use hoodalpha.Go.Time.{Duration, second}
use hoodalpha.Config.{PostgresConfig}

-- What `pgxpool.ParseConfig` makes of an address, with the fields that are set.
pub record PoolConfig : Type 0 where
  pub address : Text
  pub max_conns : ℤ
  pub min_conns : ℤ
  pub max_conn_lifetime : Duration
  pub max_conn_idle_time : Duration
  pub runtime_params : List (Text × Text)

-- pgxpool: a ping and a query have a limit on their time.
pub record PoolApi (S : Type 0) : Type 0 where
  pub parse_config : Text → Result PoolConfig
  pub new_with_config : PoolConfig → Exec S Unit
  pub ping : Duration → Exec S Unit
  pub select_one : Duration → Exec S Unit
  pub close_pool : S → S

-- An entry of a map is replaced, or added.
set_param : Text → Text → List (Text × Text) → List (Text × Text)
set_param key value [] = (key, value) ∷ []
set_param key value ((k, v) ∷ rest) =
    let more = set_param key value rest in
    if text_eq k key then (k, value) ∷ rest else (k, v) ∷ more

-- The settings that `Connect` writes; times are in UTC.
unfoldable pub pool_config : PostgresConfig → PoolConfig → PoolConfig
unfolding set_param
pool_config c parsed = record parsed {
  max_conns = c.max_conns;
  min_conns = c.min_conns;
  max_conn_lifetime = c.max_conn_lifetime;
  max_conn_idle_time = c.max_conn_idle_time;
  runtime_params = set_param (codes "timezone") (codes "UTC") parsed.runtime_params;
}

module _ {S : Type 0} (pool : PoolApi S) where
  -- A pool that does not answer is closed again.
  abbrev pub behind_ping : Result Unit → Exec S Unit
  behind_ping (ok _) s = (ok tt, s)
  behind_ping (err e) s = (err (wrap (codes "ping postgres") e), pool.close_pool s)

  -- `Connect`
  unfoldable pub connect_postgres : PostgresConfig → Exec S Unit
  unfolding pool_config
  connect_postgres c = do
    parsed ← wrapping (wrap (codes "parse postgres url")) (lift (pool.parse_config c.url))
    wrapping (wrap (codes "create pool")) (pool.new_with_config (pool_config c parsed))
    pinged ← attempt (pool.ping c.connect_timeout)
    behind_ping pinged

  -- `Pool.Health`
  unfoldable pub postgres_health : Exec S Unit
  postgres_health = pool.select_one (pos (3 * second))
