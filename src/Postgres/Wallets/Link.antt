-- ===== src/Postgres/Wallets/Link.antt =====
-- What `Link` of wallets.go has done, by how it ended.
use hoodalpha.Prelude.{
  Option-cases, any, ◌+◌, ◌≡◌, refl, sym, ap, ◌∙◌, ◌⊎◌, inl, inr, false, none, some, ◌∷◌, arith,
}
use hoodalpha.Go.Text.{text_eq_refl}
use hoodalpha.Go.Error.{same, Error, ok, err, Result-cases}
use hoodalpha.Domain.Wallet.{Wallet}
use hoodalpha.Domain.Policy.{WalletPolicy, validate}
use hoodalpha.Postgres.Tables.{Db, Postgres, statement, draw_uuid, transaction}
use hoodalpha.Postgres.Wallets.{
  has_policy_of, new_row, is_taken, get_wallet, row_constraints, link_rows, link,
}
use hoodalpha.Postgres.Transactions.{SameTables, transaction_fails}

module _ (pg : Postgres) (w : Wallet) (p : WalletPolicy) (db : Db) where
  -- What a `Link` that succeeds has found and written: it had validated the limits; the key and the
  -- identifier were free; one wallet row and one policy row are new, and the policy is what the
  -- columns make of the given limits.
  abbrev pub Linked : WalletPolicy → Wallet → Db → Type 0
  Linked row stored after =
      let id = db.uuids db.drawn in
      (validate p ≡ ok tt)
      × (is_taken id w db ≡ false)
      × (row_constraints pg w db.users ≡ ok tt)
      × (any (has_policy_of id) db.policies ≡ false)
      × (after.users ≡ db.users)
      × (after.wallets ≡ new_row id db.now w ∷ db.wallets)
      × (pg.to_columns (record p { wallet_id = id }) ≡ ok row)
      × (after.policies
          ≡ record row { id = db.uuids (db.drawn + 1); created_at = db.now; updated_at = db.now }
            ∷ db.policies)
      × (stored ≡ new_row id db.now w)

  pub link_ok :
      (stored : Wallet)
      → (link pg w p db).0 ≡ ok stored
      → (row : WalletPolicy) × Linked row stored (link pg w p db).1
  unfolding link link_rows statement draw_uuid get_wallet
  link_ok stored h =
      elim (Result-cases (pg.to_columns (record p { wallet_id = db.uuids db.drawn }))) [
        | inl (row, e) ↦ (row, ground (arith, text_eq_refl (db.uuids db.drawn)))
        | inr (f, e) ↦ absurd (ground (arith, text_eq_refl (db.uuids db.drawn)))
      ]

  -- The statements of `Link` that succeed, behind its BEGIN.
  link_rows_ok :
      (stored : Wallet)
      → validate p ≡ ok tt
      → (link_rows pg w p (statement db).1).0 ≡ ok stored
      → (row : WalletPolicy) × Linked row stored (link_rows pg w p (statement db).1).1
  unfolding link_rows statement draw_uuid get_wallet
  link_rows_ok stored valid h =
      elim (Result-cases (pg.to_columns (record p { wallet_id = db.uuids db.drawn }))) [
        | inl (row, e) ↦ (row, ground (arith, text_eq_refl (db.uuids db.drawn)))
        | inr (f, e) ↦ absurd (ground (arith, text_eq_refl (db.uuids db.drawn)))
      ]

  -- A `Link` that stops before its first row.
  before_rows :
      (((f : Error) × (validate p ≡ err f))
        ⊎ ((validate p ≡ ok tt) × (f : Error) × (db.faults db.statements ≡ some f)))
      → SameTables (link pg w p db).1 db
  unfolding link statement
  before_rows (inl (f, bad)) = ground arith
  before_rows (inr (valid, f, lost)) = ground arith

  link_begun :
      validate p ≡ ok tt
      → db.faults db.statements ≡ none
      → link pg w p db ≡ transaction (link_rows pg w p) (statement db).1
  unfolding link statement
  link_begun valid answers = rw (valid, answers) refl

  begun_tables : {after : Db} → SameTables after (statement db).1 → SameTables after db
  unfolding statement
  begun_tables same = ground arith

  same_Linked :
      {after done : Db} (row : WalletPolicy) (stored : Wallet)
      → SameTables after done
      → Linked row stored done
      → Linked row stored after
  same_Linked row stored same linked = rw (same.users, same.wallets, same.policies) linked

  -- A `Link` that fails has left every table as it was, or it has stored the wallet and its limits and
  -- only the answer to its COMMIT was lost: there is no wallet without its limits.
  pub link_fails :
      (e : Error)
      → (link pg w p db).0 ≡ err e
      → SameTables (link pg w p db).1 db
        ⊎ ((row : WalletPolicy) × (stored : Wallet) × Linked row stored (link pg w p db).1)
  link_fails e h = elim (Result-cases (validate p)) [
    | inr (f, bad) ↦ inl (before_rows (inl (f, bad)))
    | inl (u, valid) ↦ elim (Option-cases (db.faults db.statements)) [
      | inr (f, lost) ↦ inl (before_rows (inr (valid, f, lost)))
      | inl answers ↦
          let same = link_begun valid answers in
          elim (transaction_fails (link_rows pg w p) (statement db).1 e
            (ap (λ r. r.0) (sym same) ∙ h)) [
              | inl undone ↦ inl (rw same (begun_tables undone))
              | inr (stored, done, kept) ↦
                  let (row, linked) = link_rows_ok stored valid done in
                  inr (row, stored, rw same (same_Linked row stored kept linked))
            ]
    ]
  ]
