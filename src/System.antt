-- ===== src/System.antt =====
-- The use cases over the repositories: one state with the database, the chain node and the queue, and
-- the adapters that make the ports of internal/application from them.
pub mod Linking
pub mod Verification
pub mod Progress
pub mod Delivery
pub mod Site
use hoodalpha.Prelude.{ℕ, ◌+◌, Option, none, some, List, ◌∷◌}
use hoodalpha.Prelude.Int.{ℤ}
use hoodalpha.Go.Text.{Text}
use hoodalpha.Go.Error.{Error, Result, ok, err}
use hoodalpha.Go.Exec.{Exec}
use hoodalpha.Domain.Address.{Address}
use hoodalpha.Domain.Wei.{Wei}
use hoodalpha.Domain.Policy.{WalletPolicy}
use hoodalpha.Postgres.Tables.{Db, Postgres}
use hoodalpha.Postgres.Wallets.{
  get_wallet, link, list_by_user, mark_verified, set_status, get_policy, update_policy,
}
use hoodalpha.Postgres.Users.{ensure_telegram_user}
use hoodalpha.Postgres.AuditLog.{record_event}
use hoodalpha.App.Ports.{UserStore, WalletStore, AuditStore, TaskEnqueuer, AddressProbe}
use hoodalpha.App.Wallets.{WalletService}

-- The database, what the chain node answers to its n-th call, and the queue: the wallets whose
-- verification is scheduled, and whether the n-th attempt to schedule fails.
pub record World : Type 0 where
  pub db : Db
  pub chain_ids : ℕ → Result ℕ
  pub balances : ℕ → Address → Option ℕ → Result Wei
  pub calls : ℕ
  pub scheduled : List Text
  pub notifications : List (ℤ × Text)
  pub queue_faults : ℕ → Option Error
  pub attempts : ℕ

abbrev pub on_db : {A : Type 0} → Exec Db A → Exec World A
on_db m w = let (r, db) = m w.db in (r, record w { db = db })

abbrev queue_answer : Option Error → Result Unit
queue_answer none = ok tt
queue_answer (some e) = err e

abbrev pub postgres_audit : AuditStore World
postgres_audit = record { record_event = λ e. on_db (record_event e); time_now = λ w. w.db.now }

abbrev pub chain_node : AddressProbe World
chain_node = record {
  chain_id = λ w. (w.chain_ids w.calls, record w { calls = w.calls + 1 });
  balance_at = λ a n w. (w.balances w.calls a n, record w { calls = w.calls + 1 });
}

abbrev pub task_queue : TaskEnqueuer World
task_queue = record {
  enqueue_wallet_verify = λ id w. (
    queue_answer (w.queue_faults w.attempts),
    record w { scheduled = id ∷ w.scheduled; attempts = w.attempts + 1 },
  );
  enqueue_notification = λ chat text w. (
    queue_answer (w.queue_faults w.attempts),
    record w { notifications = (chat, text) ∷ w.notifications; attempts = w.attempts + 1 },
  );
}

module _ (pg : Postgres) where
  abbrev pub postgres_wallets : WalletStore World
  postgres_wallets = record {
    link = λ w p. on_db (link pg w p);
    get_wallet = λ id. on_db (get_wallet pg id);
    list_by_user = λ user_id. on_db (list_by_user pg user_id);
    mark_verified = λ id at. on_db (mark_verified pg id at);
    set_status = λ id status. on_db (set_status pg id status);
    get_policy = λ id. on_db (get_policy pg id);
    update_policy = λ id p. on_db (update_policy pg id p);
  }

  abbrev pub postgres_users : UserStore World
  postgres_users = record { ensure_telegram_user = λ t. on_db (ensure_telegram_user pg t) }

  -- The service as the processes wire it.
  abbrev pub wallet_service : ℕ → WalletPolicy → WalletService World
  wallet_service chain_id defaults = record {
    wallets = postgres_wallets;
    audit = some postgres_audit;
    chain = some chain_node;
    queue = some task_queue;
    chain_id = chain_id;
    defaults = defaults;
    now = λ w. w.db.now;
  }
