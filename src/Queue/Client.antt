-- ===== src/Queue/Client.antt =====
-- internal/queue/client.go and enqueuer.go: what the application puts into the queue. Asynq is a
-- parameter.
use hoodalpha.Prelude.{
  if◌then◌else◌, ℕ, ◌*◌, ◌≡◌, refl, Bool, true, not, List, [], ◌∷◌, ◌++◌, arith,
}
use hoodalpha.Prelude.Int.{ℤ, pos, ltb_ℤ}
use hoodalpha.Go.Text.{Text, codes, text_eq, before}
use hoodalpha.Go.Error.{task_id_conflict, Error, wrap, is, Result, ok, err}
use hoodalpha.Go.Exec.{Exec, pure, lift, wrapping, ◌>>=◌, ◌>>◌}
use hoodalpha.Go.Time.{Time, Duration, second}
use hoodalpha.App.Ports.{TaskEnqueuer}

-- `EnqueueOptions`
pub record EnqueueOptions : Type 0 where
  pub queue : Text
  pub task_id : Text
  pub max_retry : ℤ
  pub timeout : Duration
  pub process_in : Duration
  pub retention : Duration

-- The options of Asynq that the client sets.
pub data AsynqOption : Type 0 where
  queue_option task_id_option : Text → AsynqOption
  max_retry_option : ℤ → AsynqOption
  timeout_option process_in_option retention_option : Duration → AsynqOption

abbrev when : Bool → AsynqOption → List AsynqOption
when c o = if c then o ∷ [] else []

-- `asynqOpts`
unfoldable pub asynq_opts : EnqueueOptions → List AsynqOption
asynq_opts o =
    when (not (text_eq o.queue [])) (queue_option o.queue)
    ++ (when (not (text_eq o.task_id [])) (task_id_option o.task_id)
        ++ (when (ltb_ℤ (pos 0) o.max_retry) (max_retry_option o.max_retry)
            ++ (when (ltb_ℤ (pos 0) o.timeout) (timeout_option o.timeout)
                ++ (when (ltb_ℤ (pos 0) o.process_in) (process_in_option o.process_in)
                    ++ when (ltb_ℤ (pos 0) o.retention) (retention_option o.retention)))))

-- `TaskInfo`
pub record TaskInfo : Type 0 where
  pub id : Text
  pub kind : Text
  pub queue : Text

-- What the client calls: `EnqueueContext` of Asynq, the clock, and `json.Marshal` of the payloads of
-- the two tasks.
pub record Broker (S : Type 0) : Type 0 where
  pub submit : Text → Text → List AsynqOption → Exec S TaskInfo
  pub time_now : S → Time
  pub marshal_verify : Text → Time → Result Text
  pub marshal_notification : ℤ → Text → Result Text

-- `IsDuplicate`
abbrev pub is_duplicate : Error → Bool
is_duplicate e = is e task_id_conflict

abbrev pub seconds_of : ℕ → Duration
seconds_of n = pos (n * second)

abbrev pub verify_options : Text → EnqueueOptions
verify_options wallet_id = record {
  queue = codes "critical";
  task_id = codes "wallet-verify:" ++ wallet_id;
  max_retry = pos 5;
  timeout = seconds_of 30;
  process_in = pos 0;
  retention = seconds_of 3600;
}

abbrev pub notification_options : EnqueueOptions
notification_options = record {
  queue = codes "notifications";
  task_id = [];
  max_retry = pos 3;
  timeout = seconds_of 20;
  process_in = pos 0;
  retention = seconds_of 1800;
}

-- A duplicate is no error.
abbrev pub forgive_duplicate : Result TaskInfo → Result Unit
forgive_duplicate (ok _) = ok tt
forgive_duplicate (err e) =
    if is_duplicate e then ok tt else err (wrap (codes "enqueue wallet verify") e)

-- The options behind the identifier of a verification task.
abbrev other_options : List AsynqOption
other_options =
    max_retry_option (pos 5)
    ∷ timeout_option (seconds_of 30)
    ∷ retention_option (seconds_of 3600)
    ∷ []

asynq_opts-verify :
    (wallet_id : Text)
    → asynq_opts (verify_options wallet_id)
      ≡ queue_option (codes "critical")
        ∷ task_id_option (codes "wallet-verify:" ++ wallet_id)
        ∷ other_options
unfolding asynq_opts codes text_eq
asynq_opts-verify wallet_id = refl

module _ {S : Type 0} (broker : Broker S) where
  -- `Client.Enqueue`, with the payload as `json.Marshal` writes it.
  unfoldable pub enqueue : Text → Result Text → EnqueueOptions → Exec S TaskInfo
  enqueue kind body o = do
    bytes ← wrapping (wrap (codes "marshal " ++ kind ++ codes " payload")) (lift body)
    wrapping (wrap (codes "enqueue " ++ kind)) (broker.submit kind bytes (asynq_opts o))

  -- `EnqueueWalletVerify`
  unfoldable pub enqueue_verify : Text → Exec S Unit
  enqueue_verify wallet_id s =
      let body = broker.marshal_verify wallet_id (broker.time_now s) in
      let (r, s1) = enqueue (codes "wallet:verify") body (verify_options wallet_id) s in
      (forgive_duplicate r, s1)

  -- `EnqueueNotification`
  unfoldable pub enqueue_message : ℤ → Text → Exec S Unit
  enqueue_message chat_id text = do
    wrapping (wrap (codes "enqueue notification")) (
        enqueue (codes "telegram:notification") (broker.marshal_notification chat_id text)
          notification_options)
    pure tt

  -- The port of the use cases.
  abbrev pub enqueuer : TaskEnqueuer S
  enqueuer = record {
    enqueue_wallet_verify = enqueue_verify;
    enqueue_notification = enqueue_message;
  }

  -- What Asynq promises of a task identifier: while the task is known, in any queue or retained, another one with
  -- that identifier is a conflict and changes nothing, and a task that was taken in is known.
  pub record KnowsTasks (known : Text → S → Type 0) : Type 0 where
    pub conflict :
        (kind body id : Text) (before behind : List AsynqOption) (s : S)
        → known id s
        → (e : Error) × (broker.submit kind body (before ++ task_id_option id ∷ behind) s
            ≡ (err e, s))
          × (is_duplicate e ≡ true)
    pub taken :
        (kind body id : Text) (before behind : List AsynqOption) (s s1 : S) (info : TaskInfo)
        → broker.submit kind body (before ++ task_id_option id ∷ behind) s ≡ (ok info, s1)
        → known id s1

  -- Where the verification of a wallet is known already, scheduling it again changes nothing and is no error.
  pub verify_scheduled_once :
      (known : Text → S → Type 0) (wallet_id body : Text) (s : S)
      → KnowsTasks known
      → broker.marshal_verify wallet_id (broker.time_now s) ≡ ok body
      → known (codes "wallet-verify:" ++ wallet_id) s
      → enqueue_verify wallet_id s ≡ (ok tt, s)
  unfolding enqueue_verify enqueue
  verify_scheduled_once known wallet_id body s promises marshalled before =
      let (e, answer, duplicate) =
        promises.conflict (codes "wallet:verify") body (codes "wallet-verify:" ++ wallet_id)
          (queue_option (codes "critical") ∷ []) other_options s before in
      ground (arith, asynq_opts-verify wallet_id, answer, duplicate, marshalled)
