-- ===== src/App/Ports.antt =====
-- internal/application/ports.go: what the use cases ask of the store, the audit trail, the queue and
-- the chain, over the state `S` of all of them.
use hoodalpha.Prelude.{ℕ, Bool, Option, none, some, List}
use hoodalpha.Prelude.Int.{ℤ}
use hoodalpha.Go.Text.{Text}
use hoodalpha.Go.Error.{ok}
use hoodalpha.Go.Exec.{Exec}
use hoodalpha.Go.Time.{Time}
use hoodalpha.Domain.Address.{Address}
use hoodalpha.Domain.Wei.{Wei}
use hoodalpha.Domain.User.{AccountId, User, TelegramUser}
use hoodalpha.Domain.Wallet.{WalletStatus, Wallet}
use hoodalpha.Domain.Policy.{WalletPolicy}
use hoodalpha.Domain.Audit.{AuditEvent}

-- `UserStore`, with the method that the use cases call.
pub record UserStore (S : Type 0) : Type 0 where
  pub ensure_telegram_user : TelegramUser → Exec S (User × TelegramUser × Bool)

-- `WalletStore`
pub record WalletStore (S : Type 0) : Type 0 where
  pub link : Wallet → WalletPolicy → Exec S Wallet
  pub get_wallet : Text → Exec S Wallet
  pub list_by_user : AccountId → Exec S (List Wallet)
  pub mark_verified : Text → Time → Exec S Unit
  pub set_status : Text → WalletStatus → Exec S Unit
  pub get_policy : Text → Exec S WalletPolicy
  pub update_policy : Text → WalletPolicy → Exec S Unit

-- `AuditStore`, and the clock that `NewAuditEvent` reads.
pub record AuditStore (S : Type 0) : Type 0 where
  pub record_event : AuditEvent → Exec S Unit
  pub time_now : S → Time

-- `TaskEnqueuer`
pub record TaskEnqueuer (S : Type 0) : Type 0 where
  pub enqueue_wallet_verify : Text → Exec S Unit
  pub enqueue_notification : ℤ → Text → Exec S Unit

-- `AddressProbe`
pub record AddressProbe (S : Type 0) : Type 0 where
  pub chain_id : Exec S ℕ
  pub balance_at : Address → Option ℕ → Exec S Wei

-- `recordAudit`: the event is made at the instant of the call, and a failure to write it does not
-- reach the caller.
unfoldable pub record_audit :
    {S : Type 0} → Option (AuditStore S) → (Time → AuditEvent) → Exec S Unit
record_audit none event s = (ok tt, s)
record_audit (some audit) event s = (ok tt, (audit.record_event (event (audit.time_now s)) s).1)
