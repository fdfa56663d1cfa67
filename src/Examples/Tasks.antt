-- ===== src/Examples/Tasks.antt =====
-- A verification task on a small database.
use hoodalpha.Prelude.{◌≡◌, false, [], arith}
use hoodalpha.Go.Text.{Text, codes}
use hoodalpha.Go.Error.{Error, new, ok, err}
use hoodalpha.Postgres.Wallets.{get_wallet}
use hoodalpha.Postgres.Tables.{statement}
use hoodalpha.App.Wallets.{verify_wallet}
use hoodalpha.System.{chain_node, wallet_service}
use hoodalpha.Queue.{
  is_skip_retry, is_given_up, is_hopeless, Payloads, wallet_verify, wallet_verify_given_up,
}
use hoodalpha.Examples.Rules.{limits}
use hoodalpha.Examples.Store.{pg, world}

-- The payload is the identifier itself.
abbrev pub plain_payloads : Payloads
plain_payloads = record {
  wallet_id = λ t. ok t;
  notification = λ _. err (new []);
  requested_at = λ _. ok tt;
}

plain_errors :
    (id : Text) (e : Error)
    → (verify_wallet (wallet_service pg 4663 limits) chain_node id world).0 ≡ err e
    → is_skip_retry e ≡ false
unfolding verify_wallet get_wallet statement codes
plain_errors id e h = ground arith

wallet_verify_given_up_example :
    is_given_up
      (wallet_verify plain_payloads (wallet_service pg 4663 limits) chain_node (codes "z") world).0
    ≡ is_hopeless
        (ok (codes "z"))
        (λ id. (verify_wallet (wallet_service pg 4663 limits) chain_node id world).0)
wallet_verify_given_up_example =
    wallet_verify_given_up plain_payloads (wallet_service pg 4663 limits) chain_node (codes "z")
      world plain_errors
