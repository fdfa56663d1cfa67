-- ===== src/System/Verification.antt =====
-- Verifying a wallet through `WalletService` over the repositories.
use hoodalpha.Prelude.{
  ◌==◌, Bool-cases, any, ℕ, ◌+◌, ◌≡◌, refl, ◌∙◌, inl, inr, Bool, false, none, List, [], ◌∷◌, arith,
}
use hoodalpha.Go.Text.{Text, codes}
use hoodalpha.Go.Error.{wrap, Result-cases}
use hoodalpha.Go.Exec.{Exec, wrapping, ◌>>=◌}
use hoodalpha.Go.Time.{Time}
use hoodalpha.Domain.Wallet.{Wallet}
use hoodalpha.Domain.Policy.{WalletPolicy}
use hoodalpha.Postgres.Tables.{Db, Postgres, statement, update_where}
use hoodalpha.Postgres.Wallets.{verified_row, is_pending_row, get_wallet, mark_verified}
use hoodalpha.Postgres.Wallets.Status.{mark_verified-wallets}
use hoodalpha.Postgres.AuditLog.{record_event}
use hoodalpha.App.Ports.{record_audit}
use hoodalpha.App.Wallets.{event, verify_on_chain, verify_wallet}
use hoodalpha.System.{World, on_db, chain_node, wallet_service}
use hoodalpha.Domain.Audit.{AuditEvent}

update_where_none :
    {A : Type 0} (test : A → Bool) (f : A → A) (xs : List A)
    → any test xs ≡ false
    → update_where test f xs ≡ xs
update_where_none test f [] h = refl
update_where_none test f (x ∷ xs) h = ground (arith, update_where_none test f xs)

mark_verified_none :
    (pg : Postgres) (id : Text) (at : Time) (db : Db)
    → any (is_pending_row id) db.wallets ≡ false
    → (mark_verified pg id at db).1.wallets ≡ db.wallets
mark_verified_none pg id at db h = ground (
  arith,
  mark_verified-wallets pg id db at,
  update_where_none (is_pending_row id) (verified_row at db.now) db.wallets h,
)

-- Code that leaves the wallet rows as they are.
module _ (rows : List Wallet) where
  abbrev pub IsKeeping : {A : Type 0} → Exec World A → Type 0
  IsKeeping m = (w : World) → w.db.wallets ≡ rows → (m w).1.db.wallets ≡ rows

  pub bind-IsKeeping :
      {A B : Type 0} (m : Exec World A) (f : A → Exec World B)
      → IsKeeping m
      → ((a : A) → IsKeeping (f a))
      → IsKeeping (m >>= f)
  bind-IsKeeping m f keeps then_keeps w e = elim (Result-cases (m w).0) [
    | inl (a, done) ↦ rw done (then_keeps a (m w).1 (keeps w e))
    | inr (x, failed) ↦ rw failed (keeps w e)
  ]

  pub event-IsKeeping :
      (event : AuditEvent) (w : World)
      → w.db.wallets ≡ rows
      → (record_event event w.db).1.wallets ≡ rows
  unfolding record_event statement
  event-IsKeeping event w e = ground arith

  module _ (pg : Postgres) (chain_id : ℕ) (defaults : WalletPolicy) (id : Text) where
    pub get_wallet-keeps : (db : Db) → db.wallets ≡ rows → (get_wallet pg id db).1.wallets ≡ rows
    unfolding get_wallet statement
    get_wallet-keeps db e = ground arith

    verify_on_chain-IsKeeping :
        any (is_pending_row id) rows ≡ false
        → (wallet : Wallet)
        → IsKeeping (verify_on_chain (wallet_service pg chain_id defaults) chain_node id wallet)
    unfolding verify_on_chain record_audit
    verify_on_chain-IsKeeping none_pending wallet w e =
        elim (Result-cases (w.balances w.calls wallet.address none)) [
          | inr (x, failed) ↦ rw failed (event-IsKeeping _ (record w { calls = w.calls + 1 }) e)
          | inl (b, read) ↦ rw read (
              bind-IsKeeping (on_db (mark_verified pg id w.db.now)) _
                (λ v q. mark_verified_none pg id w.db.now v.db (rw q none_pending) ∙ q)
                (λ _ v q. get_wallet-keeps _ (event-IsKeeping _ v q))
                (record w { calls = w.calls + 1 }) e)
        ]

    verify_wallet-IsKeeping :
        any (is_pending_row id) rows ≡ false
        → IsKeeping (verify_wallet (wallet_service pg chain_id defaults) chain_node id)
    unfolding verify_wallet record_audit
    verify_wallet-IsKeeping none_pending =
        bind-IsKeeping (on_db (get_wallet pg id)) _ (λ w. get_wallet-keeps w.db)
          (λ wallet.
            bind-IsKeeping (wrapping (wrap (codes "read chain id")) chain_node.chain_id) _
              (λ v q. q)
              (λ n v q. elim (Bool-cases (n == wallet.chain_id)) [
                | inl same_chain ↦ rw same_chain (verify_on_chain-IsKeeping none_pending wallet v q)
                | inr other ↦ rw other (event-IsKeeping _ v q)
              ]))

module _ (pg : Postgres) (chain_id : ℕ) (defaults : WalletPolicy) (id : Text) (w : World) where
  -- A verification that comes late or twice brings no wallet back: where no pending wallet has the
  -- identifier, the verification leaves every wallet row as it was, however it ends.
  pub verify_no_return :
      any (is_pending_row id) w.db.wallets ≡ false
      → (verify_wallet (wallet_service pg chain_id defaults) chain_node id w).1.db.wallets
        ≡ w.db.wallets
  verify_no_return h = verify_wallet-IsKeeping w.db.wallets pg chain_id defaults id h w refl
