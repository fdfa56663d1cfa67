-- ===== src/Queue/Server.antt =====
-- internal/queue/server.go and queue.go: the server of the worker. Asynq runs the tasks.
use hoodalpha.Prelude.{
  if◌then◌else◌, Bool-cases, any, find, ℕ, ◌≡◌, refl, inl, inr, Bool, false, Option, none, some,
  List, ◌∷◌, arith,
}
use hoodalpha.Prelude.Int.{ℤ}
use hoodalpha.Go.Text.{Text, text_eq_refl, codes, text_eq}
use hoodalpha.Go.Error.{Error, wrap, err, is_ok}
use hoodalpha.Go.Exec.{Exec, wrapping, modify, ◌>>◌}
use hoodalpha.Go.Time.{Duration}
use hoodalpha.Config.{RedisConfig, WorkerConfig}
use hoodalpha.Queue.{is_skip_retry, retry_delay}

-- The types of the tasks that are implemented.
abbrev pub health_check_task : Text
health_check_task = codes "system:health_check"

abbrev pub sync_head_task : Text
sync_head_task = codes "chain:sync_head"

abbrev pub wallet_verify_task : Text
wallet_verify_task = codes "wallet:verify"

abbrev pub notification_task : Text
notification_task = codes "telegram:notification"

-- `asynq.RedisClientOpt` and `RedisOpt`
pub record RedisClientOpt : Type 0 where
  pub addr : Text
  pub password : Text
  pub db : ℤ
  pub pool_size : ℤ

abbrev pub redis_opt : RedisConfig → RedisClientOpt
redis_opt c = record { addr = c.addr; password = c.password; db = c.db; pool_size = c.pool_size }

-- What `NewServer` hands to Asynq, without the logger and the handler that logs errors.
pub record AsynqConfig : Type 0 where
  pub concurrency : ℤ
  pub queues : List (Text × ℕ)
  pub strict_priority : Bool
  pub shutdown_timeout : Duration
  pub retry_delay_func : ℕ → Duration

abbrev pub asynq_config : WorkerConfig → AsynqConfig
asynq_config c = record {
  concurrency = c.concurrency;
  queues = c.queues;
  strict_priority = false;
  shutdown_timeout = c.shutdown_timeout;
  retry_delay_func = retry_delay;
}

-- `Handler`, on the payload of a task.
abbrev pub TaskHandler : Type 0 → Type 0
TaskHandler S = Text → Exec S Unit

-- The handlers that are registered with the mux, by the type of their tasks.
abbrev pub Mux : Type 0 → Type 0
Mux S = List (Text × TaskHandler S)

abbrev pub is_of_type : {S : Type 0} → Text → Text × TaskHandler S → Bool
is_of_type kind entry = text_eq entry.0 kind

-- What `Handle` registers: the type of the task stands before the error of its handler.
abbrev pub typed : {S : Type 0} → Text → TaskHandler S → TaskHandler S
typed kind h payload = wrapping (wrap kind) (h payload)

-- `Server.Handle`: none where the mux panics on a type that is registered twice.
unfoldable pub handle_task : {S : Type 0} → Text → TaskHandler S → Mux S → Option (Mux S)
handle_task kind h mux =
    if any (is_of_type kind) mux then none else some ((kind, typed kind h) ∷ mux)

-- The handler that was registered for exactly a type.
abbrev pub handler_of : {S : Type 0} → Text → Mux S → Option (Text × TaskHandler S)
handler_of kind mux = find (is_of_type kind) mux

-- The start and the end of `asynq.Server`; between them it serves until the context is done.
pub record AsynqServer (S : Type 0) : Type 0 where
  pub start : Mux S → Exec S Unit
  pub serve_until_done : S → S
  pub shutdown : S → S

-- `Server.Run`
unfoldable pub run_server : {S : Type 0} → AsynqServer S → Mux S → Exec S Unit
run_server server mux = do
  wrapping (wrap (codes "start asynq server")) (server.start mux)
  modify server.serve_until_done
  modify server.shutdown

-- A registered handler runs for the tasks of its type: it changes what the handler changes, it fails where
-- that fails, and Asynq is asked to stop exactly where the handler asks for it.
pub handle_task_lem :
    {S : Type 0} (kind payload : Text) (h : TaskHandler S) (mux mux' : Mux S) (s : S)
    → handle_task kind h mux ≡ some mux'
    → (entry : Text × TaskHandler S) × (handler_of kind mux' ≡ some entry)
      × ((entry.1 payload s).1 ≡ (h payload s).1)
      × (is_ok (entry.1 payload s).0 ≡ is_ok (h payload s).0)
      × ((e : Error)
          → (h payload s).0 ≡ err e
          → (f : Error) × ((entry.1 payload s).0 ≡ err f) × (is_skip_retry f ≡ is_skip_retry e))
unfolding handle_task
handle_task_lem kind payload h mux mux' s registered =
    elim (Bool-cases (any (is_of_type kind) mux)) [
      | inl taken ↦ ground arith
      | inr free ↦ (
        (kind, typed kind h),
        ground (arith, text_eq_refl kind),
        refl,
        ground arith,
        λ e failed. (wrap kind e, ground arith, refl),
      )
    ]
