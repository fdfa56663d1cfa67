-- ===== src/Cmd/Worker.antt =====
-- `run` of cmd/worker/main.go.
pub mod Tasks
use hoodalpha.Prelude.{ℕ, true, false, Option, none, some, List, [], ◌∷◌}
use hoodalpha.Prelude.Int.{ℤ, pos}
use hoodalpha.Go.Text.{Text, codes}
use hoodalpha.Go.Error.{new, ok}
use hoodalpha.Go.Exec.{Exec, pure, fail, ◌>>=◌, ◌>>◌}
use hoodalpha.Queue.{health_check, sync_head, wallet_verify, telegram_notification}
use hoodalpha.Queue.Client.{
  AsynqOption, queue_option, max_retry_option, timeout_option, retention_option, seconds_of,
}
use hoodalpha.Queue.Server.{
  health_check_task, sync_head_task, wallet_verify_task, notification_task, AsynqConfig,
  asynq_config, TaskHandler, Mux, handle_task,
}
use hoodalpha.Telegram.Bot.{BotApi, new_notifier}
use hoodalpha.Config.{Config, enabled}
use hoodalpha.Config.Env.{Environment}
use hoodalpha.Bootstrap.{Infrastructure}
use hoodalpha.Cmd.{
  Ports, Libraries, new_wallet_service, new_chain_sync, command_health, unless_canceled,
  run_process,
}

-- An entry of the scheduler of Asynq; its payload is empty.
pub record Scheduled : Type 0 where
  pub cron : Text
  pub kind : Text
  pub options : List AsynqOption

-- The options of a maintenance task.
abbrev pub maintenance : ℕ → List AsynqOption
maintenance retries =
    queue_option (codes "maintenance")
    ∷ max_retry_option (pos retries)
    ∷ timeout_option (seconds_of 30)
    ∷ retention_option (seconds_of 3600)
    ∷ []

-- The registrations of `newScheduler`; an error of a registration is logged.
abbrev pub schedule : List Scheduled
schedule =
    record { cron = codes "* * * * *"; kind = health_check_task; options = maintenance 1 }
    ∷ record { cron = codes "* * * * *"; kind = sync_head_task; options = maintenance 3 }
    ∷ []

infixl 5 ◌then_handle_task◌
abbrev pub ◌then_handle_task◌ :
    {S : Type 0} → Option (Mux S) → Text × TaskHandler S → Option (Mux S)
none then_handle_task entry = none
some mux then_handle_task entry = handle_task entry.0 entry.1 mux

module _ {S : Type 0} (libraries : Libraries) (ports : Ports S) (c : Config) where
  open libraries use {payloads}

  -- The three handlers that every worker has.
  unfoldable pub three_handlers : Option (Mux S)
  three_handlers =
      some []
      then_handle_task (
        health_check_task,
        health_check payloads (command_health ports c libraries none),
      )
      then_handle_task (sync_head_task, sync_head payloads (new_chain_sync ports c))
      then_handle_task (
        wallet_verify_task,
        wallet_verify payloads (new_wallet_service ports c) ports.addresses,
      )

  -- The handlers of a worker, with that of the notifications where there is a notifier; none where a registration panics.
  unfoldable pub worker_handlers : Option (ℤ → Text → Exec S Unit) → Option (Mux S)
  unfolding three_handlers
  worker_handlers none = three_handlers
  worker_handlers (some send) =
      three_handlers
      then_handle_task (notification_task, telegram_notification payloads (some send))

-- What the worker runs until it ends: the server with its handlers, and the scheduler. The answer is that
-- of `g.Wait`.
abbrev pub Working : Type 0 → Type 0
Working S = AsynqConfig → Mux S → List Scheduled → Exec S Unit

module _ {S : Type 0} (libraries : Libraries) (ports : Ports S) (api : BotApi S)
    (work : Working S) where
  -- The notifier, which is there only with the token of a bot.
  unfoldable pub notifier_of : Config → Exec S (Option (ℤ → Text → Exec S Unit))
  notifier_of c = elim (enabled c.telegram) [
    | false ↦ pure none
    | true ↦ do send ← new_notifier api c.telegram.bot_token; pure (some send)
  ]

  -- The body of `run`. The case without handlers is that of a panic, which ends the process.
  unfoldable pub worker_body : Config → Exec S Unit
  unfolding notifier_of
  worker_body c = do
    notifier ← notifier_of c
    elim (worker_handlers libraries ports c notifier) [
      | none ↦ fail (new (codes "asynq: multiple registrations"))
      | some mux ↦
          λ s. let (r, s') = work (asynq_config c.worker) mux schedule s in (unless_canceled r, s')
    ]

  -- `run`
  unfoldable pub run_worker : Environment → Infrastructure S → Exec S Unit → Exec S Unit
  unfolding worker_body
  run_worker env infra close_queue = run_process env infra close_queue (λ _. ok tt) worker_body
