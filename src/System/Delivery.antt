-- ===== src/System/Delivery.antt =====
-- Verification tasks that are delivered more than once.
use hoodalpha.Prelude.{
  ◌==◌, Bool-cases, any, ℕ, zero, suc, ◌+◌, ◌≡◌, refl, sym, ap, ◌∙◌, inl, inr, Bool, false, none,
  List, [], ◌∷◌, arith,
}
use hoodalpha.Go.Text.{Text, codes, text_eq}
use hoodalpha.Go.Error.{wrap, Result, ok, Result-cases}
use hoodalpha.Go.Exec.{Exec, wrapping, bind_ok}
use hoodalpha.Go.Time.{Time}
use hoodalpha.Domain.Wallet.{same_status, Wallet}
use hoodalpha.Domain.Policy.{WalletPolicy}
use hoodalpha.Postgres.Tables.{Db, Postgres, update_where}
use hoodalpha.Postgres.Wallets.{verified_row, is_pending_row, get_wallet, mark_verified}
use hoodalpha.Postgres.Wallets.Status.{mark_verified-wallets}
use hoodalpha.App.Ports.{record_audit}
use hoodalpha.App.Wallets.{verify_on_chain, verify_wallet}
use hoodalpha.Queue.{Payloads, wallet_verify}
use hoodalpha.System.{World, on_db, chain_node, wallet_service}
use hoodalpha.System.Verification.{event-IsKeeping, get_wallet-keeps, verify_no_return}

any-update_where_none :
    {A : Type 0} (test : A → Bool) (f : A → A) (xs : List A)
    → ((x : A) → test (f x) ≡ false)
    → any test (update_where test f xs) ≡ false
any-update_where_none test f [] done = refl
any-update_where_none test f (x ∷ xs) done =
    ground (arith, done x, any-update_where_none test f xs done)

-- No pending wallet has the identifier.
abbrev pub IsSettled : Text → World → Type 0
IsSettled id w = any (is_pending_row id) w.db.wallets ≡ false

module _ (pg : Postgres) (chain_id : ℕ) (defaults : WalletPolicy) (id : Text) where
  mark_verified-settles :
      (at : Time) (db : Db) (u : Unit)
      → (mark_verified pg id at db).0 ≡ ok u
      → any (is_pending_row id) (mark_verified pg id at db).1.wallets ≡ false
  unfolding same_status
  mark_verified-settles at db u h =
      let e : (mark_verified pg id at db).1.wallets
          ≡ update_where (is_pending_row id) (verified_row at db.now) db.wallets =
        ground (arith, mark_verified-wallets pg id db at) in
      rw e (
        any-update_where_none (is_pending_row id) (verified_row at db.now) db.wallets
          (λ w. ground arith))

  -- Behind the update nothing touches the wallets.
  verify_on_chain-settles :
      (wallet stored : Wallet) (w w1 : World)
      → verify_on_chain (wallet_service pg chain_id defaults) chain_node id wallet w
        ≡ (ok stored, w1)
      → IsSettled id w1
  unfolding verify_on_chain record_audit
  verify_on_chain-settles wallet stored w w1 h =
      elim (Result-cases (w.balances w.calls wallet.address none)) [
        | inr (e, failed) ↦ absurd (ground (arith, h, failed))
        | inl (b, read) ↦
            let (u, v, marked, rest) =
              bind_ok (on_db (mark_verified pg id w.db.now)) _ (record w { calls = w.calls + 1 }) w1
                stored (rw read at h) in
            let settled =
              mark_verified-settles w.db.now w.db u
                (ap (λ (p : Result Unit × World). p.0) marked) in
            let at_v : v.db ≡ (mark_verified pg id w.db.now w.db).1 =
              sym (ap (λ (p : Result Unit × World). p.1.db) marked) in
            let behind : w1.db.wallets ≡ v.db.wallets =
              sym (ap (λ (p : Result Wallet × World). p.1.db.wallets) rest)
              ∙ get_wallet-keeps v.db.wallets pg chain_id defaults id _
                  (event-IsKeeping v.db.wallets _ v refl) in
            rw (behind, at_v) settled
      ]

  -- A verification that succeeds leaves no pending wallet under its identifier.
  verify_wallet-settles :
      (stored : Wallet) (w w1 : World)
      → verify_wallet (wallet_service pg chain_id defaults) chain_node id w ≡ (ok stored, w1)
      → IsSettled id w1
  unfolding verify_wallet record_audit
  verify_wallet-settles stored w w1 h =
      let (wallet, v, loaded, rest) = bind_ok (on_db (get_wallet pg id)) _ w w1 stored h in
      let (n, u, read, tail) =
        bind_ok (wrapping (wrap (codes "read chain id")) chain_node.chain_id) _ v w1 stored rest in
      elim (Bool-cases (n == wallet.chain_id)) [
        | inl same_chain ↦ verify_on_chain-settles wallet stored u w1 (rw same_chain at tail)
        | inr other ↦ absurd (ground (arith, tail, other))
      ]

module _ (payloads : Payloads) (pg : Postgres) (chain_id : ℕ) (defaults : WalletPolicy)
    (payload : Text) where
  -- One delivery of a verification task.
  abbrev pub deliver : Exec World Unit
  deliver = wallet_verify payloads (wallet_service pg chain_id defaults) chain_node payload

  -- The state behind a number of deliveries, whatever each of them answers.
  unfoldable pub delivered : ℕ → World → World
  delivered zero w = w
  delivered (suc n) w = delivered n (deliver w).1

module _ (payloads : Payloads) (pg : Postgres) (chain_id : ℕ) (defaults : WalletPolicy)
    (payload id : Text) (decoded : payloads.wallet_id payload ≡ ok id) where
  abbrev once : Exec World Unit
  once = deliver payloads pg chain_id defaults payload

  abbrev many : ℕ → World → World
  many = delivered payloads pg chain_id defaults payload

  deliver-settles : (w : World) → (once w).0 ≡ ok tt → IsSettled id (once w).1
  unfolding wallet_verify
  deliver-settles w h = elim (Bool-cases (text_eq id [])) [
    | inl unnamed ↦ absurd (ground (arith, h, decoded, unnamed))
    | inr named ↦
        elim (Result-cases
          (verify_wallet (wallet_service pg chain_id defaults) chain_node id w).0) [
            | inr (e, failed) ↦ absurd (ground (arith, h, decoded, named, failed))
            | inl (stored, verified) ↦
                let e : (once w).1
                    ≡ (verify_wallet (wallet_service pg chain_id defaults) chain_node id w).1 =
                  ground (arith, decoded, named, verified) in
                rw e (
                  verify_wallet-settles pg chain_id defaults id stored w
                    (verify_wallet (wallet_service pg chain_id defaults) chain_node id w).1
                    (ap
                      (λ (r : Result Wallet). (
                        r,
                        (verify_wallet (wallet_service pg chain_id defaults) chain_node id w).1,
                      ))
                      verified))
          ]
  ]

  deliver-keeps : (w : World) → IsSettled id w → (once w).1.db.wallets ≡ w.db.wallets
  unfolding wallet_verify
  deliver-keeps w settled = elim (Bool-cases (text_eq id [])) [
    | inl unnamed ↦ ground (arith, decoded, unnamed)
    | inr named ↦ ground (arith, decoded, named, verify_no_return pg chain_id defaults id w)
  ]

  delivered-keeps : (n : ℕ) (w : World) → IsSettled id w → (many n w).db.wallets ≡ w.db.wallets
  unfolding delivered
  delivered-keeps zero w settled = refl
  delivered-keeps (suc n) w settled =
      let e = deliver-keeps w settled in delivered-keeps n (once w).1 (rw e settled) ∙ e

  -- Behind a delivery of a verification task that succeeded, any number of further deliveries of the task
  -- changes no wallet row, however each of them ends.
  pub delivered_once :
      (w : World) (n : ℕ)
      → (once w).0 ≡ ok tt
      → (many n (once w).1).db.wallets ≡ (once w).1.db.wallets
  delivered_once w n h = delivered-keeps n (once w).1 (deliver-settles w h)
