-- ===== src/Bootstrap/Connecting.antt =====
-- The connections that `New` makes: `Connect` of postgres and redis, and `Dial` of chain.
pub mod Tracked
use hoodalpha.Prelude.{◌≡◌, List, ◌∷◌}
use hoodalpha.Go.Text.{Text}
use hoodalpha.Go.Error.{Error, ok, err}
use hoodalpha.Go.Exec.{Exec, pure, ◌>>◌, Keeps}
use hoodalpha.Go.Time.{Duration}
use hoodalpha.Chain.Client.{Node, ClientOptions, dial}
use hoodalpha.Postgres.Pool.{PoolConfig, PoolApi, connect_postgres}
use hoodalpha.Postgres.Migrate.{Goose, migrate_up}
use hoodalpha.Config.{ChainConfig, Config}
use hoodalpha.Bootstrap.{Handle, postgres, redis, chain, Infrastructure}
use hoodalpha.Bootstrap.RedisClient.{RedisOptions, RedisApi, connect_redis}
use hoodalpha.Postgres.Migrate.Keeping.{IsReading}

-- The libraries behind the connections.
pub record Drivers (S : Type 0) : Type 0 where
  pub pool : PoolApi S
  pub redis_api : RedisApi S
  pub node : Node S
  pub goose : Goose S

-- The `chain.Options` of a configuration.
abbrev pub client_options : ChainConfig → ClientOptions
client_options c = record {
  rpc_url = c.rpc_url;
  expected_chain = c.chain_id;
  request_timeout = c.request_timeout;
  max_retries = c.max_retries;
  retry_backoff = c.retry_backoff;
}

module _ {S : Type 0} (drivers : Drivers S) (c : Config) where
  abbrev pub connect_to : Handle → Exec S Unit
  connect_to postgres = connect_postgres drivers.pool c.postgres
  connect_to redis = connect_redis drivers.redis_api c.redis
  connect_to chain = dial drivers.node (client_options c.chain) >> pure tt

  -- The closers that `New` keeps.
  abbrev pub disconnect_from : Handle → Exec S Unit
  disconnect_from postgres s = (ok tt, drivers.pool.close_pool s)
  disconnect_from redis s = drivers.redis_api.close_client s
  disconnect_from chain s = (ok tt, drivers.node.disconnect s)

  -- What `New` calls, for a configuration.
  abbrev pub connections : Infrastructure S
  connections = record {
    migrations = migrate_up drivers.goose c.postgres;
    open_handle = connect_to;
    close_handle = disconnect_from;
  }

-- What the libraries do with the connections that are open, the newest first: making one adds it, closing the
-- newest takes it away, and nothing else touches them. goose has a handle of its own.
pub record IsDriving {S : Type 0} (drivers : Drivers S) (live : S → List Handle) : Type 0 where
  pub pool_made :
      (o : PoolConfig) (s s1 : S)
      → drivers.pool.new_with_config o s ≡ (ok tt, s1)
      → live s1 ≡ postgres ∷ live s
  pub pool_failed :
      (o : PoolConfig) (s s1 : S) (e : Error)
      → drivers.pool.new_with_config o s ≡ (err e, s1)
      → live s1 ≡ live s
  pub pool_pinged : (d : Duration) → Keeps live (drivers.pool.ping d)
  pub redis_made :
      (o : RedisOptions) (s : S) → live (drivers.redis_api.new_client o s) ≡ redis ∷ live s
  pub redis_pinged : (d : Duration) → Keeps live (drivers.redis_api.ping d)
  pub node_made :
      (url : Text) (s s1 : S) → drivers.node.connect url s ≡ (ok tt, s1) → live s1 ≡ chain ∷ live s
  pub node_failed :
      (url : Text) (s s1 : S) (e : Error)
      → drivers.node.connect url s ≡ (err e, s1)
      → live s1 ≡ live s
  pub node_asked : (d : Duration) → Keeps live (drivers.node.eth_chain_id d)
  pub paused : (d : Duration) (s : S) → live (drivers.node.runtime.pause d s).1 ≡ live s
  pub goose_apart : IsReading drivers.goose live
  pub goose_up : Keeps live drivers.goose.up
  pub pool_closed :
      (s : S) (rest : List Handle)
      → live s ≡ postgres ∷ rest
      → live (drivers.pool.close_pool s) ≡ rest
  pub redis_closed :
      (s : S) (rest : List Handle)
      → live s ≡ redis ∷ rest
      → live (drivers.redis_api.close_client s).1 ≡ rest
  pub node_closed :
      (s : S) (rest : List Handle) → live s ≡ chain ∷ rest → live (drivers.node.disconnect s) ≡ rest
