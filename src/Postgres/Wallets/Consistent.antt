-- ===== src/Postgres/Wallets/Consistent.antt =====
-- The constraints on the rows of `wallets` and on the keys of `wallet_policies` as an invariant of the
-- repository.
use hoodalpha.Prelude.{
  any, All, Pairs, All-imp, All-of_any, ◌+◌, ◌≡◌, inl, inr, true, false, ◌||◌, none, List, ◌∷◌,
  arith,
}
use hoodalpha.Go.Text.{Text, text_eq_refl, text_eq, to_lower}
use hoodalpha.Go.Error.{ok, Result-cases}
use hoodalpha.Go.Time.{Time}
use hoodalpha.Domain.Address.{matches_hex, is_zero_address}
use hoodalpha.Domain.Wallet.{is_valid_role, pending, same_status, Wallet}
use hoodalpha.Domain.Policy.{WalletPolicy}
use hoodalpha.Postgres.Tables.{Db, Postgres}
use hoodalpha.Postgres.Wallets.{
  has_wallet_id, has_policy_of, same_key, new_row, row_constraints, link,
}
use hoodalpha.Postgres.Wallets.Link.{Linked, link_ok, link_fails}

-- Of the CHECK constraints on a row: a canonical address that is not zero, a known role, and no proof of
-- verification while the wallet is pending.
abbrev pub Checked : Wallet → Type 0
Checked w =
    (matches_hex 40 w.address ≡ true)
    × (text_eq (to_lower w.address) w.address ≡ true)
    × (is_zero_address w.address ≡ false)
    × (is_valid_role w.role ≡ true)
    × (same_status w.status pending ≡ true → w.verified_at ≡ none)

abbrev pub Apart : Wallet → Wallet → Type 0
Apart w v = (has_wallet_id w.id v || same_key w v) ≡ false

abbrev pub HasLimits : List WalletPolicy → Wallet → Type 0
HasLimits policies w = any (has_policy_of w.id) policies ≡ true

abbrev pub OtherWallet : WalletPolicy → WalletPolicy → Type 0
OtherWallet p q = has_policy_of p.wallet_id q ≡ false

-- The invariant: every wallet passes those checks, no two wallets share an identifier or an account,
-- chain and address, every wallet has limits, and no wallet has them twice.
pub record Consistent (wallets : List Wallet) (policies : List WalletPolicy) : Type 0 where
  pub checked : All Checked wallets
  pub apart : Pairs Apart wallets
  pub limited : All (HasLimits policies) wallets
  pub one_policy : Pairs OtherWallet policies

abbrev pub IsConsistent : Db → Type 0
IsConsistent db = Consistent db.wallets db.policies

row_constraints-Checked :
    (pg : Postgres) (w : Wallet) (db : Db) (id : Text) (now : Time)
    → row_constraints pg w db.users ≡ ok tt
    → Checked (new_row id now w)
unfolding row_constraints
row_constraints-Checked pg w db id now h = ground arith

HasLimits-cons :
    (row : WalletPolicy) (policies : List WalletPolicy) (w : Wallet)
    → HasLimits policies w
    → HasLimits (row ∷ policies) w
HasLimits-cons row policies w h = ground arith

module _ (pg : Postgres) (w : Wallet) (p : WalletPolicy) (db : Db) (c : IsConsistent db) where
  Linked-IsConsistent :
      (row : WalletPolicy) (stored : Wallet) (after : Db)
      → Linked pg w p db row stored after
      → IsConsistent after
  Linked-IsConsistent row stored after (_, free, checks, lone, _, rows, to_row, policies, _) =
      let id : Text = db.uuids db.drawn in
      let own : row.wallet_id ≡ id = (pg.to_columns-keeps _ row to_row).1 in
      let new_policy : WalletPolicy = record row {
        id = db.uuids (db.drawn + 1);
        created_at = db.now;
        updated_at = db.now;
      } in
      rw (rows, policies)
        (record {
          checked = (row_constraints-Checked pg w db id db.now checks, c.checked);
          apart = (All-of_any _ db.wallets free, c.apart);
          limited = (
            rw (own, text_eq_refl id),
            All-imp (HasLimits db.policies) (HasLimits (new_policy ∷ db.policies)) db.wallets
                (HasLimits-cons new_policy db.policies) c.limited,
          );
          one_policy = (rw own (All-of_any _ db.policies lone), c.one_policy);
        })

  -- `Link` keeps the invariant of the tables, whether it succeeds or fails at any of its statements.
  pub link-IsConsistent : IsConsistent (link pg w p db).1
  link-IsConsistent = elim (Result-cases (link pg w p db).0) [
    | inl (stored, e) ↦
        let (row, done) = link_ok pg w p db stored e in
        Linked-IsConsistent row stored (link pg w p db).1 done
    | inr (f, e) ↦ elim (link_fails pg w p db f e) [
      | inl same ↦ rw (same.wallets, same.policies) c
      | inr (row, stored, done) ↦ Linked-IsConsistent row stored (link pg w p db).1 done
    ]
  ]
