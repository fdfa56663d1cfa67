-- ===== src/Examples/Deliveries.antt =====
-- A verification task that is delivered again.
use hoodalpha.Prelude.{◌≡◌, refl, some}
use hoodalpha.Go.Text.{codes, text_eq}
use hoodalpha.Go.Error.{ok}
use hoodalpha.Postgres.Tables.{statement}
use hoodalpha.Postgres.Wallets.{get_wallet, mark_verified}
use hoodalpha.App.Ports.{record_audit}
use hoodalpha.App.Wallets.{verify_on_chain, verify_wallet}
use hoodalpha.Queue.{verify_outcome, wallet_verify}
use hoodalpha.System.{World}
use hoodalpha.System.Delivery.{deliver, delivered, delivered_once}
use hoodalpha.Examples.Rules.{limits}
use hoodalpha.Examples.Store.{pg, linked_world}
use hoodalpha.Examples.Tasks.{plain_payloads}
use hoodalpha.Domain.Wallet.{same_status}
use hoodalpha.Domain.Audit.{new_audit_event, with_subject, with_outcome, with_detail}
use hoodalpha.Postgres.AuditLog.{record_event}

-- A node that answers.
abbrev answering : World
answering = record linked_world { balances = λ _ _ _. ok (record { i = some 5 }) }

first_delivery : (deliver plain_payloads pg 4663 limits (codes "a") answering).0 ≡ ok tt
unfolding wallet_verify verify_outcome verify_wallet verify_on_chain get_wallet mark_verified
    statement codes text_eq record_audit same_status record_event with_detail with_outcome
    with_subject new_audit_event
first_delivery = refl

delivered_once_example :
    (delivered plain_payloads pg 4663 limits
      (codes "a")
      3
      (deliver plain_payloads pg 4663 limits (codes "a") answering).1).db.wallets
    ≡ (deliver plain_payloads pg 4663 limits (codes "a") answering).1.db.wallets
delivered_once_example =
    delivered_once plain_payloads pg 4663 limits (codes "a") (codes "a") refl answering 3
      first_delivery
