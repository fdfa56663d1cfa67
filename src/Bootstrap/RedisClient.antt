-- ===== src/Bootstrap/RedisClient.antt =====
-- internal/persistence/redis/redis.go: the client of Redis. go-redis is a parameter.
use hoodalpha.Prelude.{◌*◌}
use hoodalpha.Prelude.Int.{ℤ, pos}
use hoodalpha.Go.Text.{Text, codes}
use hoodalpha.Go.Error.{wrap, Result, ok, err}
use hoodalpha.Go.Exec.{Exec, attempt, modify, ◌>>=◌, ◌>>◌}
use hoodalpha.Go.Time.{Duration, second}
use hoodalpha.Config.{RedisConfig}

-- `redis.Options`
pub record RedisOptions : Type 0 where
  pub addr : Text
  pub password : Text
  pub db : ℤ
  pub pool_size : ℤ

-- go-redis: a client is made without a connection; a ping has a limit on its time.
pub record RedisApi (S : Type 0) : Type 0 where
  pub new_client : RedisOptions → S → S
  pub ping : Duration → Exec S Unit
  pub close_client : Exec S Unit

abbrev pub redis_options : RedisConfig → RedisOptions
redis_options c = record {
  addr = c.addr;
  password = c.password;
  db = c.db;
  pool_size = c.pool_size;
}

module _ {S : Type 0} (api : RedisApi S) where
  -- A client that does not answer is closed again, and an error of that is dropped.
  abbrev pub behind_redis_ping : Result Unit → Exec S Unit
  behind_redis_ping (ok _) s = (ok tt, s)
  behind_redis_ping (err e) s = (err (wrap (codes "ping redis") e), (api.close_client s).1)

  -- `Connect`
  unfoldable pub connect_redis : RedisConfig → Exec S Unit
  connect_redis c = do
    modify (api.new_client (redis_options c))
    pinged ← attempt (api.ping (pos (5 * second)))
    behind_redis_ping pinged

  -- `Client.Health`
  unfoldable pub redis_health : Exec S Unit
  redis_health = api.ping (pos (3 * second))
