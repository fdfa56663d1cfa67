-- ===== src/App/MiniApp.antt =====
-- internal/application/miniapp.go: `MiniAppAuth`.
use hoodalpha.Prelude.{Option-cases, ◌≡◌, inl, inr, true, false, Option, none, some, [], arith}
use hoodalpha.Go.Text.{Text, codes}
use hoodalpha.Go.Error.{Error, new, tagged, message, ok, err, Result-cases}
use hoodalpha.Go.Exec.{Exec, pure, fail, attempt, ◌>>=◌, ◌>>◌}
use hoodalpha.Go.Time.{Time, zero_time}
use hoodalpha.Domain.User.{err_unauthorized, TelegramId, is_active, TelegramUser, allows}
use hoodalpha.Domain.Audit.{
  system_actor, telegram_user_actor, outcome_rejected, miniapp_auth, miniapp_auth_rejected,
  text_value, AuditEvent, new_audit_event, with_subject, with_outcome, with_detail,
}
use hoodalpha.App.Ports.{AuditStore, record_audit}
use hoodalpha.App.Onboarding.{Onboarding, Identity, telegram_actor_id, authorize, authorize_ok}
use hoodalpha.InitData.{verify}
use hoodalpha.InitData.Types.{Data}

-- `MiniAppAuth`, with the `Verify` of its verifier.
pub record MiniAppAuth (S : Type 0) : Type 0 where
  pub verifier : Option (Text → Exec S Data)
  pub onboarding : Onboarding S
  pub audit : Option (AuditStore S)

abbrev pub rejected : Text → Time → AuditEvent
rejected reason now =
    with_detail (codes "reason") (text_value reason)
      (with_outcome outcome_rejected (new_audit_event now system_actor [] miniapp_auth_rejected))

abbrev bot_rejected : TelegramId → Time → AuditEvent
bot_rejected id now =
    with_detail (codes "reason") (text_value (codes "bot accounts may not authenticate")) (
      with_outcome outcome_rejected
        (new_audit_event now telegram_user_actor (telegram_actor_id id) miniapp_auth_rejected))

abbrev authenticated : Identity → Time → AuditEvent
authenticated identity now = with_subject (codes "user") identity.user.id (
    new_audit_event now telegram_user_actor (telegram_actor_id identity.telegram.telegram_id)
      miniapp_auth)

-- The identity that the signed payload names.
abbrev pub signed_identity : Data → TelegramUser
signed_identity payload = record {
  telegram_id = payload.user.id;
  user_id = [];
  username = payload.user.username;
  first_name = payload.user.first_name;
  last_name = payload.user.last_name;
  language_code = payload.user.language_code;
  chat_id = payload.user.id;
  created_at = zero_time;
  updated_at = zero_time;
  last_seen_at = zero_time;
}

module _ {S : Type 0} (auth : MiniAppAuth S) where
  open auth use {onboarding, audit}

  -- `Authenticate` for a payload that the verifier accepts.
  unfoldable pub authenticate_data : Data → Exec S Identity
  unfolding record_audit
  authenticate_data payload = elim payload.user.is_bot [
    | true ↦ record_audit audit (bot_rejected payload.user.id) >> fail err_unauthorized
    | false ↦ do
      identity ← authorize onboarding (signed_identity payload)
      record_audit audit (authenticated identity)
      pure identity
  ]

  -- `Authenticate`
  unfoldable pub authenticate : Text → Exec S Identity
  unfolding authenticate_data record_audit
  authenticate raw = elim auth.verifier [
    | none ↦ fail (new (codes "mini app verification is not configured"))
    | some verify ↦ do
      verified ← attempt (verify raw)
      elim verified [
        | err e ↦ do
          record_audit audit (rejected (message e))
          fail (tagged err_unauthorized (message e))
        | ok payload ↦ authenticate_data payload
      ]
  ]

  -- A session is only given to the user whom an accepted payload names: the payload was verified, is not
  -- a bot's, and its user is on the allowlist with an active account.
  pub authenticate_ok :
      (raw : Text) (verify : Text → Exec S Data) (s : S) (identity : Identity)
      → auth.verifier ≡ some verify
      → (authenticate raw s).0 ≡ ok identity
      → (payload : Data) × ((verify raw s).0 ≡ ok payload)
        × (payload.user.is_bot ≡ false)
        × (allows onboarding.allowlist payload.user.id ≡ true)
        × (is_active identity.user.status ≡ true)
  unfolding authenticate authenticate_data record_audit
  authenticate_ok raw verify s identity configured h = elim (Result-cases (verify raw s).0) [
    | inr (e, refused) ↦ ground arith
    | inl (payload, accepted) ↦
        elim (Result-cases (authorize onboarding (signed_identity payload) (verify raw s).1).0) [
          | inr (e, refused) ↦ ground arith
          | inl (i, admitted) ↦
              let facts =
                authorize_ok onboarding (signed_identity payload) (verify raw s).1 i admitted in
              (payload, accepted, ground arith, facts.1, ground (arith, facts.2))
        ]
  ]

  -- A payload that the verifier refuses leaves nothing behind but what the verifier did and one
  -- entry of the audit trail: no account is looked up or created, and the refusal wraps "unauthorized".
  pub unverified_rejected :
      (raw : Text) (verify : Text → Exec S Data) (s : S) (e : Error)
      → auth.verifier ≡ some verify
      → (verify raw s).0 ≡ err e
      → authenticate raw s ≡ (
        err (tagged err_unauthorized (message e)),
        (record_audit audit (rejected (message e)) (verify raw s).1).1,
      )
  unfolding authenticate record_audit
  unverified_rejected raw verify s e configured refused = elim (Option-cases audit) [
    | inl none_e ↦ rw (configured, refused, none_e)
    | inr (a, some_e) ↦ rw (configured, refused, some_e)
  ]
