-- ===== src/Domain/Audit.antt =====
-- internal/domain/audit.go: what the audit trail records.
use hoodalpha.Prelude.{if◌then◌else◌, ℕ, List, [], ◌∷◌}
use hoodalpha.Go.Text.{Text, text_eq}
use hoodalpha.Go.Time.{Time}
use hoodalpha.Domain.Policy.{WalletPolicy}

-- The `Actor...` constants that the code writes.
pub data Actor : Type 0 where
  system_actor telegram_user_actor worker_actor : Actor

-- The `Outcome...` constants.
pub data Outcome : Type 0 where
  outcome_ok outcome_rejected outcome_failed : Outcome

-- The `Action...` constants that the code writes.
pub data Action : Type 0 where
  telegram_command telegram_unauthorized telegram_rate_limited user_onboarded : Action
  miniapp_auth miniapp_auth_rejected : Action
  wallet_linked wallet_verified wallet_verify_failed wallet_disabled policy_changed : Action

-- A value in the detail of an event.
pub data DetailValue : Type 0 where
  text_value : Text → DetailValue
  number_value : ℕ → DetailValue
  policy_value : WalletPolicy → DetailValue

-- `AuditEvent`
pub record AuditEvent : Type 0 where
  pub occurred_at : Time
  pub actor_type : Actor
  pub actor_id : Text
  pub action : Action
  pub subject_type : Text
  pub subject_id : Text
  pub outcome : Outcome
  pub detail : List (Text × DetailValue)

-- `NewAuditEvent` at an instant.
unfoldable pub new_audit_event : Time → Actor → Text → Action → AuditEvent
new_audit_event now actor_type actor_id action = record {
  occurred_at = now;
  actor_type = actor_type;
  actor_id = actor_id;
  action = action;
  subject_type = [];
  subject_id = [];
  outcome = outcome_ok;
  detail = [];
}

-- `WithSubject`
unfoldable pub with_subject : Text → Text → AuditEvent → AuditEvent
with_subject subject_type subject_id e = record e {
  subject_type = subject_type;
  subject_id = subject_id;
}

-- `WithOutcome`
unfoldable pub with_outcome : Outcome → AuditEvent → AuditEvent
with_outcome outcome e = record e { outcome = outcome }

-- A write to the map of details.
set_detail : Text → DetailValue → List (Text × DetailValue) → List (Text × DetailValue)
set_detail key value [] = (key, value) ∷ []
set_detail key value ((k, v) ∷ rest) =
    if text_eq k key then (key, value) ∷ rest else (k, v) ∷ set_detail key value rest

-- `WithDetail`
unfoldable pub with_detail : Text → DetailValue → AuditEvent → AuditEvent
unfolding set_detail
with_detail key value e = record e { detail = set_detail key value e.detail }
