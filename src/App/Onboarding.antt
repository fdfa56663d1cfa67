-- ===== src/App/Onboarding.antt =====
-- internal/application/onboarding.go: who is let in.
use hoodalpha.Prelude.{
  Bool-cases, Option-cases, ◌≡◌, inl, inr, Bool, true, false, Option, ◌++◌, arith,
}
use hoodalpha.Go.Text.{Text, codes, decimal_ℤ}
use hoodalpha.Go.Error.{wrap, ok, err, Result-cases}
use hoodalpha.Go.Exec.{Exec, pure, fail, wrapping, ◌>>=◌, ◌>>◌}
use hoodalpha.Go.Time.{Time}
use hoodalpha.Domain.User.{
  err_unauthorized, TelegramId, is_valid_id, is_active, user_status_text, User, TelegramUser,
  Allowlist, allows, is_empty,
}
use hoodalpha.Domain.Audit.{
  telegram_user_actor, Outcome, outcome_rejected, Action, telegram_command, telegram_unauthorized,
  telegram_rate_limited, user_onboarded, text_value, AuditEvent, new_audit_event, with_subject,
  with_outcome, with_detail,
}
use hoodalpha.App.Ports.{UserStore, AuditStore, record_audit}

-- `Onboarding`
pub record Onboarding (S : Type 0) : Type 0 where
  pub users : UserStore S
  pub audit : Option (AuditStore S)
  pub allowlist : Allowlist

-- `Identity`
pub record Identity : Type 0 where
  pub user : User
  pub telegram : TelegramUser
  pub first_contact : Bool

-- `telegramActorID`
unfoldable pub telegram_actor_id : TelegramId → Text
telegram_actor_id id = codes "telegram:" ++ decimal_ℤ id

abbrev pub refusal : TelegramId → Time → AuditEvent
refusal id now =
    with_outcome outcome_rejected
      (new_audit_event now telegram_user_actor (telegram_actor_id id) telegram_unauthorized)

abbrev pub not_in_allowlist : TelegramId → Time → AuditEvent
not_in_allowlist id now =
    with_detail (codes "reason") (text_value (codes "not in allowlist")) (refusal id now)

abbrev not_active : TelegramId → User → Time → AuditEvent
not_active id user now =
    with_detail (codes "reason") (text_value (codes "account " ++ user_status_text user.status)) (
      with_outcome outcome_rejected (
        with_subject (codes "user") user.id
          (new_audit_event now telegram_user_actor (telegram_actor_id id) telegram_unauthorized)))

abbrev onboarded : TelegramId → User → Time → AuditEvent
onboarded id user now =
    with_subject (codes "user") user.id
      (new_audit_event now telegram_user_actor (telegram_actor_id id) user_onboarded)

abbrev command_event : TelegramId → Text → Action → Outcome → Time → AuditEvent
command_event id command action outcome now =
    with_detail (codes "command") (text_value command)
      (with_outcome outcome (new_audit_event now telegram_user_actor (telegram_actor_id id) action))

module _ {S : Type 0} (onboarding : Onboarding S) where
  open onboarding use {users, audit, allowlist}

  -- `Authorize` behind the account.
  unfoldable pub admit : TelegramId → User → TelegramUser → Bool → Exec S Identity
  unfolding record_audit
  admit id user stored created = elim (is_active user.status) [
    | false ↦ record_audit audit (not_active id user) >> fail err_unauthorized
    | true ↦ elim created [
      | true ↦ do
        record_audit audit (onboarded id user)
        pure (record { user = user; telegram = stored; first_contact = true })
      | false ↦ pure (record { user = user; telegram = stored; first_contact = false })
    ]
  ]

  -- `Authorize`
  unfoldable pub authorize : TelegramUser → Exec S Identity
  unfolding admit record_audit
  authorize tu = elim (is_valid_id tu.telegram_id) [
    | false ↦ fail err_unauthorized
    | true ↦ elim (allows allowlist tu.telegram_id) [
      | false ↦ record_audit audit (not_in_allowlist tu.telegram_id) >> fail err_unauthorized
      | true ↦ do
        found ← wrapping (wrap (codes "ensure telegram user")) (users.ensure_telegram_user tu)
        admit tu.telegram_id found.0 found.1 found.2
    ]
  ]

  -- `RecordCommand`
  unfoldable pub record_command : TelegramId → Text → Outcome → Exec S Unit
  unfolding record_audit
  record_command id command outcome =
      record_audit audit (command_event id command telegram_command outcome)

  -- `RecordRateLimited`
  unfoldable pub record_rate_limited : TelegramId → Text → Exec S Unit
  unfolding record_audit
  record_rate_limited id command =
      record_audit audit (command_event id command telegram_rate_limited outcome_rejected)

  -- `AllowlistEmpty`
  unfoldable pub is_allowlist_empty : Bool
  is_allowlist_empty = is_empty allowlist

  -- Somebody who is not on the allowlist is refused, and nothing happens but that the refusal is audited:
  -- no account is looked up or created.
  pub authorize_stranger :
      (tu : TelegramUser) (s : S)
      → is_valid_id tu.telegram_id ≡ true
      → allows allowlist tu.telegram_id ≡ false
      → authorize tu s
        ≡ (err err_unauthorized, (record_audit audit (not_in_allowlist tu.telegram_id) s).1)
  unfolding authorize record_audit
  authorize_stranger tu s valid stranger = elim (Option-cases audit) [
    | inl none_e ↦ ground arith
    | inr (a, some_e) ↦ ground arith
  ]

  -- Whoever is let in is on the allowlist with a positive identifier, and the account that the store
  -- answers with is active; it is the account of the answer.
  pub authorize_ok :
      (tu : TelegramUser) (s : S) (identity : Identity)
      → (authorize tu s).0 ≡ ok identity
      → (is_valid_id tu.telegram_id ≡ true)
        × (allows allowlist tu.telegram_id ≡ true)
        × (is_active identity.user.status ≡ true)
        × ((users.ensure_telegram_user tu s).0
            ≡ ok (identity.user, identity.telegram, identity.first_contact))
  unfolding authorize admit record_audit
  authorize_ok tu s identity h = elim (Bool-cases (is_valid_id tu.telegram_id)) [
    | inr invalid ↦ ground arith
    | inl valid ↦ elim (Bool-cases (allows allowlist tu.telegram_id)) [
      | inr stranger ↦ ground arith
      | inl known ↦ elim (Result-cases (users.ensure_telegram_user tu s).0) [
        | inr (e, failed) ↦ ground arith
        | inl ((user, stored, created), found) ↦ ground arith
      ]
    ]
  ]
