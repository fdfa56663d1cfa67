-- ===== src/Cmd/Worker/Tasks.antt =====
-- Which tasks find a handler and a queue.
use hoodalpha.Prelude.{
  any, All, ℕ, ◌≡◌, refl, sym, ap, subst, Bool, true, false, ◌&&◌, Option, none, some, List,
}
use hoodalpha.Prelude.Int.{ℤ}
use hoodalpha.Go.Text.{Text, codes, text_eq}
use hoodalpha.Go.Error.{ok}
use hoodalpha.Go.Exec.{Exec}
use hoodalpha.Queue.Client.{
  AsynqOption, queue_option, asynq_opts, verify_options, notification_options,
}
use hoodalpha.Queue.Server.{wallet_verify_task, notification_task, Mux, is_of_type, handle_task}
use hoodalpha.Config.{Config, default_queues}
use hoodalpha.Config.Env.{Environment}
use hoodalpha.Config.Load.{load_worker, read_config, load}
use hoodalpha.Config.Bounds.{load_ok}
use hoodalpha.Cmd.{Ports, Libraries}
use hoodalpha.Cmd.Worker.{schedule, three_handlers, worker_handlers}

-- The queue that the options of a task name.
abbrev pub names_queue : Text → AsynqOption → Bool
names_queue queue (queue_option q) = text_eq q queue
names_queue queue _ = false

abbrev pub has_handler : {S : Type 0} → Text → Mux S → Bool
has_handler kind mux = any (is_of_type kind) mux

-- One of the queues is the one that the options name.
abbrev pub has_queue : List (Text × ℕ) → List AsynqOption → Bool
has_queue queues options = any (λ q. any (names_queue q.0) options) queues

abbrev pub is_there : {A : Type 0} → Option A → Bool
is_there none = false
is_there (some _) = true

load-queues : (env : Environment) (c : Config) → load env ≡ ok c → c.worker.queues ≡ default_queues
unfolding read_config load_worker
load-queues env c h =
    let (_, e, _) = load_ok env c h in sym (ap (λ (c : Config). c.worker.queues) e)

-- The queues and the handlers for the tasks of the scheduler, for the verification of a wallet, and for the
-- notifications, which have a handler as the test says.
abbrev pub Covers : {S : Type 0} → List (Text × ℕ) → Text → Bool → Mux S → Type 0
Covers queues id notifying mux =
    All (λ t. (has_handler t.kind mux && has_queue queues t.options) ≡ true) schedule
    × ((has_handler wallet_verify_task mux && has_queue queues (asynq_opts (verify_options id)))
        ≡ true)
    × (has_handler notification_task mux ≡ notifying)
    × (has_queue queues (asynq_opts notification_options) ≡ true)

module _ {S : Type 0} (libraries : Libraries) (ports : Ports S) (c : Config) where
  default_queues-Covers :
      (notifier : Option (ℤ → Text → Exec S Unit)) (id : Text)
      → (mux : Mux S) × (worker_handlers libraries ports c notifier ≡ some mux)
        × Covers default_queues id (is_there notifier) mux
  unfolding worker_handlers three_handlers handle_task asynq_opts codes text_eq
  default_queues-Covers none id = (_, refl, ((refl, (refl, tt)), refl, refl, refl))
  default_queues-Covers (some send) id = (_, refl, ((refl, (refl, tt)), refl, refl, refl))

  -- The worker of a loaded configuration starts without a panic, and it has a handler and serves a queue for each
  -- task of its scheduler and for the verification of any wallet. It serves the queue of the
  -- notifications, and has a handler for them exactly where there is a notifier.
  pub worker_handlers-Covers :
      (env : Environment) (notifier : Option (ℤ → Text → Exec S Unit)) (id : Text)
      → load env ≡ ok c
      → (mux : Mux S) × (worker_handlers libraries ports c notifier ≡ some mux)
        × Covers c.worker.queues id (is_there notifier) mux
  worker_handlers-Covers env notifier id loaded =
      subst
        (λ (queues : List (Text × ℕ)).
          (mux : Mux S) × (worker_handlers libraries ports c notifier ≡ some mux)
          × Covers queues id (is_there notifier) mux)
        (sym (load-queues env c loaded)) (default_queues-Covers notifier id)
