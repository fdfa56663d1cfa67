-- ===== src/System/Linking.antt =====
-- Linking a wallet through `WalletService` over the repositories.
use hoodalpha.Prelude.{ℕ, ◌+◌, ◌≡◌, inl, inr, false, ◌∷◌, arith}
use hoodalpha.Go.Text.{Text}
use hoodalpha.Go.Error.{ok, Result-cases}
use hoodalpha.Domain.Wallet.{WalletRole, pending, Wallet, new_wallet}
use hoodalpha.Domain.Policy.{WalletPolicy}
use hoodalpha.Postgres.Tables.{Postgres, statement}
use hoodalpha.Postgres.Wallets.{link}
use hoodalpha.Postgres.Wallets.Link.{link_ok}
use hoodalpha.Postgres.AuditLog.{record_event}
use hoodalpha.App.Wallets.{LinkRequest, link_wallet}
use hoodalpha.System.{World, wallet_service}
use hoodalpha.Domain.Address.{parse_address}
use hoodalpha.App.Ports.{record_audit}

new_wallet_pending :
    (user_id address : Text) (chain_id : ℕ) (role : WalletRole) (label : Text) (wallet : Wallet)
    → new_wallet user_id address chain_id role label ≡ ok wallet
    → wallet.status ≡ pending
unfolding new_wallet
new_wallet_pending user_id address chain_id role label wallet h =
    elim (Result-cases (parse_address address)) [
      | inl (a, e) ↦ ground arith
      | inr (f, e) ↦ ground arith
    ]

module _ (pg : Postgres) (chain_id : ℕ) (defaults : WalletPolicy) (req : LinkRequest)
    (w : World) where
  -- Behind the repository, `Link` leaves both tables and answers with the stored wallet.
  link_tables :
      (wallet linked : Wallet)
      → new_wallet req.user_id req.address chain_id req.role req.label ≡ ok wallet
      → (link pg wallet (record defaults { trading_enabled = false }) w.db).0 ≡ ok linked
      → ((link_wallet (wallet_service pg chain_id defaults) req w).1.db.wallets
          ≡ (link pg wallet (record defaults { trading_enabled = false }) w.db).1.wallets)
        × ((link_wallet (wallet_service pg chain_id defaults) req w).1.db.policies
            ≡ (link pg wallet (record defaults { trading_enabled = false }) w.db).1.policies)
        × ((link_wallet (wallet_service pg chain_id defaults) req w).0 ≡ ok linked)
  unfolding link_wallet record_audit record_event statement
  link_tables wallet linked checked done = ground arith

  -- A wallet that `Link` answers with is new, pending and stored together with limits of its own, in
  -- which trading is off, whatever the defaults of the configuration say.
  pub link_trading_off :
      (stored : Wallet)
      → (link_wallet (wallet_service pg chain_id defaults) req w).0 ≡ ok stored
      → ((link_wallet (wallet_service pg chain_id defaults) req w).1.db.wallets
          ≡ stored ∷ w.db.wallets)
        × (stored.status ≡ pending)
        × ((p : WalletPolicy) × ((link_wallet
                (wallet_service pg chain_id defaults)
                req
                w).1.db.policies
              ≡ p ∷ w.db.policies)
            × (p.wallet_id ≡ stored.id)
            × (p.trading_enabled ≡ false))
  unfolding link_wallet record_audit
  link_trading_off stored h =
      elim (Result-cases (new_wallet req.user_id req.address chain_id req.role req.label)) [
        | inr (e, bad) ↦ ground arith
        | inl (wallet, checked) ↦
            let policy : WalletPolicy = record defaults { trading_enabled = false } in
            elim (Result-cases (link pg wallet policy w.db).0) [
              | inr (e, refused) ↦ ground arith
              | inl (linked, done) ↦
                  let (row, facts) = link_ok pg wallet policy w.db linked done in
                  let (wallets_e, policies_e, result_e) = link_tables wallet linked checked done in
                  let kept_columns =
                    pg.to_columns-keeps (record policy { wallet_id = w.db.uuids w.db.drawn }) row in
                  let is_pending =
                    new_wallet_pending req.user_id req.address chain_id req.role req.label wallet
                      checked in
                  let limits : WalletPolicy = record row {
                    id = w.db.uuids (w.db.drawn + 1);
                    created_at = w.db.now;
                    updated_at = w.db.now;
                  } in
                  (
                    ground (arith, facts, wallets_e, result_e, h),
                    ground (arith, facts, result_e, h, is_pending),
                    (
                      limits,
                      ground (arith, facts, policies_e),
                      ground (arith, facts, result_e, h, kept_columns),
                      ground (arith, facts, kept_columns),
                    ),
                  )
            ]
      ]
