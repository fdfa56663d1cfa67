-- ===== src/Queue.antt =====
-- internal/queue: the task handlers of internal/queue/tasks and the delay between retries.
pub mod Client
pub mod Server
use hoodalpha.Prelude.{
  if◌then◌else◌, ℕ, ◌*◌, ◌%◌, ◌^◌, ◌≡◌, inl, inr, Bool, true, false, ◌||◌, Option, none, some, [],
  ◌++◌, arith,
}
use hoodalpha.Prelude.Int.{ℤ, pos, ltb_ℤ, eqb_ℤ, to_int64}
use hoodalpha.Go.Text.{Text, codes, text_eq}
use hoodalpha.Go.Error.{
  wrong_chain, not_found, skip_retry, Error, variable, new, wrap, led, is, Result, ok, err,
  Result-cases,
}
use hoodalpha.Go.Exec.{Exec, pure, fail, lift, wrapping, fail_if, ◌>>=◌, ◌>>◌}
use hoodalpha.Go.Time.{Duration, second, minute}
use hoodalpha.Domain.Health.{HealthStatus, up, degraded, down}
use hoodalpha.App.Ports.{AddressProbe}
use hoodalpha.App.Wallets.{WalletService, verify_wallet}
use hoodalpha.App.ChainSync.{ChainSync, record_latest}
use hoodalpha.App.Health.{HealthChecker, check}
use hoodalpha.Domain.Wallet.{Wallet}

-- `asynq.SkipRetry`
abbrev pub err_skip_retry : Error
err_skip_retry = variable skip_retry (codes "skip retry for the task")

-- `SkipRetry`
unfoldable pub with_skip_retry : Error → Error
with_skip_retry e = led err_skip_retry e

-- `IsSkipRetry`
abbrev pub is_skip_retry : Error → Bool
is_skip_retry e = is e skip_retry

abbrev pub is_given_up : Result Unit → Bool
is_given_up (ok _) = false
is_given_up (err e) = is_skip_retry e

-- What of a verification asks for no further attempt: a payload that does not decode, one without an
-- identifier, a wallet that is gone, and a node on another network.
abbrev pub is_hopeless : Result Text → (Text → Result Wallet) → Bool
is_hopeless (err _) verified = true
is_hopeless (ok id) verified =
    text_eq id []
    || elim (verified id) [ err e ↦ is e not_found || is e wrong_chain | ok _ ↦ false ]

-- The delay before the retry with a number, in an `int64` of nanoseconds, at most ten minutes.
unfoldable pub retry_delay : ℕ → Duration
retry_delay n =
    let d = to_int64 (2 ^ n % 2 ^ 64 * second) in
    if ltb_ℤ (pos (10 * minute)) d then pos (10 * minute) else d

-- `NotificationPayload`
pub record NotificationPayload : Type 0 where
  pub chat_id : ℤ
  pub text : Text

-- `json.Unmarshal` into the payloads of the tasks: the wallet identifier, the notification, and
-- whether the time of the scheduled tasks is well formed.
pub record Payloads : Type 0 where
  pub wallet_id : Text → Result Text
  pub notification : Text → Result NotificationPayload
  pub requested_at : Text → Result Unit

abbrev health_text : HealthStatus → Text
health_text up = codes "up"
health_text degraded = codes "degraded"
health_text down = codes "down"

-- What `WalletVerify` makes of the error of `Verify`.
unfoldable pub verify_outcome : Text → Error → Error
unfolding with_skip_retry
verify_outcome id e =
    if is e not_found
    then with_skip_retry (new (codes "wallet " ++ id ++ codes " not found"))
    else if is e wrong_chain
    then with_skip_retry e
    else e

module _ (payloads : Payloads) {S : Type 0} where
  -- The decoding that starts a scheduled task: an empty payload is not decoded.
  unfoldable pub decode_scheduled : Text → Exec S Unit
  unfolding with_skip_retry
  decode_scheduled payload =
      if text_eq payload []
      then pure tt
      else wrapping (λ e. with_skip_retry (wrap (codes "decode payload") e))
          (lift (payloads.requested_at payload))

  -- `HealthCheck`
  unfoldable pub health_check : HealthChecker S → Text → Exec S Unit
  unfolding decode_scheduled
  health_check checker payload = do
    decode_scheduled payload
    report ← λ s. let (r, s') = check checker s in (ok r, s')
    elim report.status [
      | down ↦ fail (new (codes "health status " ++ health_text report.status))
      | _ ↦ pure tt
    ]

  -- `SyncHead`
  unfoldable pub sync_head : ChainSync S → Text → Exec S Unit
  unfolding decode_scheduled
  sync_head sync payload = do decode_scheduled payload; record_latest sync; pure tt

  -- `WalletVerify`
  unfoldable pub wallet_verify : WalletService S → AddressProbe S → Text → Exec S Unit
  unfolding verify_outcome with_skip_retry
  wallet_verify service probe payload = do
    id ←
        wrapping (λ e. with_skip_retry (wrap (codes "decode payload") e))
          (lift (payloads.wallet_id payload))
    fail_if (text_eq id []) (with_skip_retry (new (codes "wallet_id is required")))
    wrapping (verify_outcome id) (verify_wallet service probe id)
    pure tt

  -- `TelegramNotification`
  unfoldable pub telegram_notification : Option (ℤ → Text → Exec S Unit) → Text → Exec S Unit
  unfolding with_skip_retry
  telegram_notification notifier payload = do
    p ←
        wrapping (λ e. with_skip_retry (wrap (codes "decode payload") e))
          (lift (payloads.notification payload))
    fail_if (eqb_ℤ p.chat_id (pos 0) || text_eq p.text [])
        (with_skip_retry (new (codes "chat_id and text are required")))
    elim notifier [
      | none ↦ fail (new (codes "notifier is not configured"))
      | some notify ↦ wrapping (wrap (codes "send notification")) (notify p.chat_id p.text)
    ]

  -- A verification task that fails is given up exactly where its payload does not decode or has no identifier,
  -- or the use case answers that the wallet is gone or the node on another network, where the errors of
  -- the use case do not ask for it themselves.
  pub wallet_verify_given_up :
      (service : WalletService S) (probe : AddressProbe S) (payload : Text) (s : S)
      → ((id : Text) (e : Error)
          → (verify_wallet service probe id s).0 ≡ err e
          → is_skip_retry e ≡ false)
      → is_given_up (wallet_verify service probe payload s).0
        ≡ is_hopeless (payloads.wallet_id payload) (λ id. (verify_wallet service probe id s).0)
  unfolding wallet_verify verify_outcome with_skip_retry
  wallet_verify_given_up service probe payload s plain =
      elim (Result-cases (payloads.wallet_id payload)) [
        | inr (e, garbled) ↦ ground (arith, garbled)
        | inl (id, decoded) ↦ elim (Result-cases (verify_wallet service probe id s).0) [
          | inl (w, verified) ↦ ground (arith, decoded, verified)
          | inr (e, failed) ↦ ground (arith, decoded, failed, plain id e failed)
        ]
      ]
