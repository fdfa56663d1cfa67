-- ===== src/System/Site.antt =====
-- The ports of the commands over the repositories and Redis: what cmd/api makes of its open connections.
pub mod Verifier
pub mod Replay
use hoodalpha.Go.Exec.{Exec}
use hoodalpha.App.ChainSync.{ChainProbe}
use hoodalpha.InitData.Guard.{Redis, first_use}
use hoodalpha.Telegram.Limiter.{WindowOf, allow}
use hoodalpha.Postgres.Tables.{Db, Postgres}
use hoodalpha.Postgres.Wallets.{
  get_wallet, link, list_by_user, mark_verified, set_status, get_policy, update_policy,
}
use hoodalpha.Postgres.Users.{ensure_telegram_user}
use hoodalpha.Postgres.AuditLog.{record_event}
use hoodalpha.Postgres.SyncState.{save_head, load_head}
use hoodalpha.Cmd.{Ports}
use hoodalpha.System.{World, on_db, chain_node, task_queue}

-- The database, the chain node and the queue of a process, and its Redis, which has the clock.
pub record Site : Type 0 where
  pub world : World
  pub redis : Redis

abbrev pub at_world : {A : Type 0} → Exec World A → Exec Site A
at_world m s = let (r, world) = m s.world in (r, record s { world = world })

abbrev pub at_db : {A : Type 0} → Exec Db A → Exec Site A
at_db m = at_world (on_db m)

abbrev pub at_redis : {A : Type 0} → Exec Redis A → Exec Site A
at_redis m s = let (r, q) = m s.redis in (r, record s { redis = q })

-- What the code asks of the connections beside its repositories: the newest block, and two pings.
pub record Connected : Type 0 where
  pub blocks : ChainProbe Site
  pub ping_postgres : Exec Site Unit
  pub ping_redis : Exec Site Unit

module _ (pg : Postgres) (window_of : WindowOf) (connected : Connected) where
  abbrev pub site_ports : Ports Site
  site_ports = record {
    users = record { ensure_telegram_user = λ t. at_db (ensure_telegram_user pg t) };
    wallets = record {
      link = λ wallet p. at_db (link pg wallet p);
      get_wallet = λ id. at_db (get_wallet pg id);
      list_by_user = λ user_id. at_db (list_by_user pg user_id);
      mark_verified = λ id at. at_db (mark_verified pg id at);
      set_status = λ id status. at_db (set_status pg id status);
      get_policy = λ id. at_db (get_policy pg id);
      update_policy = λ id p. at_db (update_policy pg id p);
    };
    audit = record { record_event = λ e. at_db (record_event e); time_now = λ s. s.redis.now };
    sync_state = record {
      save_head = λ chain_id name b. at_db (save_head chain_id name b);
      load_head = λ chain_id. at_db (load_head chain_id);
    };
    addresses = record {
      chain_id = at_world chain_node.chain_id;
      balance_at = λ a n. at_world (chain_node.balance_at a n);
    };
    blocks = connected.blocks;
    ping_postgres = connected.ping_postgres;
    ping_redis = connected.ping_redis;
    first_use = λ prefix hash ttl. at_redis (first_use prefix hash ttl);
    allow = λ prefix identity limit window s.
        let (permit, q) = allow window_of prefix identity limit window s.redis in
        (permit, record s { redis = q });
    queue = record {
      enqueue_wallet_verify = λ id. at_world (task_queue.enqueue_wallet_verify id);
      enqueue_notification = λ chat text. at_world (task_queue.enqueue_notification chat text);
    };
    now = λ s. s.redis.now;
  }
