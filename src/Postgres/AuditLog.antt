-- ===== src/Postgres/AuditLog.antt =====
-- audit.go: the repository of the audit trail.
use hoodalpha.Prelude.{all, Bool, true, false, not, ◌&&◌, ◌∷◌}
use hoodalpha.Go.Text.{codes}
use hoodalpha.Go.Error.{new, wrap}
use hoodalpha.Go.Exec.{Exec, wrapping, modify, fail_if, ◌>>◌}
use hoodalpha.Go.Float.{Float, finite}
use hoodalpha.Domain.Audit.{DetailValue, text_value, number_value, policy_value, AuditEvent}
use hoodalpha.Postgres.Tables.{Db, statement}

-- JSON has no text for NaN and the infinities: `json.Marshal` refuses them.
abbrev is_json_number : Float → Bool
is_json_number (finite _) = true
is_json_number _ = false

abbrev is_json_value : DetailValue → Bool
is_json_value (text_value _) = true
is_json_value (number_value _) = true
is_json_value (policy_value p) =
    is_json_number p.max_position_percent
    && is_json_number p.daily_loss_limit_percent
    && is_json_number p.stop_loss_percent
    && is_json_number p.capital_recovery_percent
    && is_json_number p.min_liquidity_usd

-- `Record`
unfoldable pub record_event : AuditEvent → Exec Db Unit
unfolding statement
record_event e = do
  fail_if (not (all (λ entry. is_json_value entry.1) e.detail))
      (wrap (codes "marshal audit detail") (new (codes "json: unsupported value")))
  wrapping (wrap (codes "record audit event")) statement
  modify (λ d. record d { audit_logs = e ∷ d.audit_logs })
