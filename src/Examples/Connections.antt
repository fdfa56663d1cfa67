-- ===== src/Examples/Connections.antt =====
-- The start of a process whose node reports another network.
use hoodalpha.Prelude.{refl, none, List, [], ◌∷◌, arith}
use hoodalpha.Prelude.Int.{pos}
use hoodalpha.Go.Text.{codes}
use hoodalpha.Go.Error.{new, ok, err}
use hoodalpha.Go.Exec.{pure, fail, modify}
use hoodalpha.Bootstrap.{Handle, postgres, redis, chain, new_deps}
use hoodalpha.Bootstrap.Closing.{opened_by, Left}
use hoodalpha.Bootstrap.Connecting.{Drivers, connections, IsDriving}
use hoodalpha.Bootstrap.Connecting.Tracked.{connections-IsTracked, new_connections-live}
use hoodalpha.Postgres.Pool.{PoolConfig}
use hoodalpha.Cmd.{all_connections}
use hoodalpha.Examples.Processes.{bot_loaded}

abbrev tail_of : List Handle → List Handle
tail_of [] = []
tail_of (_ ∷ hs) = hs

abbrev parsed_pool : PoolConfig
parsed_pool = record {
  address = codes "postgres://db";
  max_conns = pos 4;
  min_conns = pos 0;
  max_conn_lifetime = pos 0;
  max_conn_idle_time = pos 0;
  runtime_params = [];
}

-- The state is the connections that are open, the newest first.
abbrev small_drivers : Drivers (List Handle)
small_drivers = record {
  pool = record {
    parse_config = λ _. ok parsed_pool;
    new_with_config = λ _. modify (λ hs. postgres ∷ hs);
    ping = λ _. pure tt;
    select_one = λ _. pure tt;
    close_pool = tail_of;
  };
  redis_api = record {
    new_client = λ _ hs. redis ∷ hs;
    ping = λ _. pure tt;
    close_client = modify tail_of;
  };
  node = record {
    runtime = record { ctx_err = λ _. none; pause = λ _ s. (none, s); rpc_code = λ _. none };
    connect = λ _. modify (λ hs. chain ∷ hs);
    disconnect = tail_of;
    eth_chain_id = λ _. pure (pos 1);
    header_by_number = λ _ _. fail (new []);
    raw_transaction = λ _ _. fail (new []);
    transaction_receipt = λ _ _. fail (new []);
    raw_balance = λ _ _ _. fail (new []);
    raw_logs = λ _ _. fail (new []);
    recover_sender = λ _. err (new []);
    hex_to_hash = λ t. t;
    hex_to_address = λ t. t;
  };
  goose = record {
    sql_open = λ _. pure tt;
    sql_close = pure tt;
    set_dialect = pure tt;
    up = pure tt;
    down = pure tt;
    down_to = λ _. pure tt;
    status = pure tt;
    db_version = pure (pos 0);
  };
}

small_drivers-IsDriving : IsDriving small_drivers (λ hs. hs)
small_drivers-IsDriving = record {
  pool_made = λ o s s1 e. ground arith;
  pool_failed = λ o s s1 x e. ground arith;
  pool_pinged = λ d s. refl;
  redis_made = λ o s. refl;
  redis_pinged = λ d s. refl;
  node_made = λ url s s1 e. ground arith;
  node_failed = λ url s s1 x e. ground arith;
  node_asked = λ d s. refl;
  paused = λ d s. refl;
  goose_apart = record { opens = λ url s. refl; closes = λ s. refl; chooses = λ s. refl };
  goose_up = λ s. refl;
  pool_closed = λ s rest e. ground arith;
  redis_closed = λ s rest e. ground arith;
  node_closed = λ s rest e. ground arith;
}

new_connections-live_example :
    Left
      (connections small_drivers bot_loaded.0)
      (λ hs. hs)
      (connections-IsTracked small_drivers (λ hs. hs) small_drivers-IsDriving bot_loaded.0)
      (opened_by all_connections)
      []
      (new_deps (connections small_drivers bot_loaded.0) all_connections [])
new_connections-live_example =
    new_connections-live small_drivers (λ hs. hs) small_drivers-IsDriving bot_loaded.0
      all_connections []
