-- ===== src/Postgres/Transactions.antt =====
-- What a transaction of a repository leaves in the tables.
use hoodalpha.Prelude.{
  ℕ, ◌+◌, ◌≡◌, refl, ◌⊎◌, inl, inr, Bool, true, false, Option, none, some, arith,
}
use hoodalpha.Go.Error.{Error, Result, ok, err}
use hoodalpha.Go.Exec.{Exec}
use hoodalpha.Postgres.Tables.{Db, rolled_back, committed, end_transaction, transaction}

-- The tables are those of another state.
pub record SameTables (a b : Db) : Type 0 where
  pub users : a.users ≡ b.users
  pub telegram_users : a.telegram_users ≡ b.telegram_users
  pub wallets : a.wallets ≡ b.wallets
  pub policies : a.policies ≡ b.policies
  pub heads : a.heads ≡ b.heads
  pub audit_logs : a.audit_logs ≡ b.audit_logs

rolled_back-SameTables : (db after : Db) → SameTables (rolled_back db after) db
rolled_back-SameTables db after = record {
  users = refl;
  telegram_users = refl;
  wallets = refl;
  policies = refl;
  heads = refl;
  audit_logs = refl;
}

committed_fails :
    {A : Type 0} (db : Db) (a : A) (after : Db) (n : ℕ) (o : Option Error) (settled : Bool)
    (e : Error)
    → (committed db a (record after { statements = n }) o settled).0 ≡ err e
    → SameTables (committed db a (record after { statements = n }) o settled).1 db
      ⊎ SameTables (committed db a (record after { statements = n }) o settled).1 after
committed_fails db a after n none settled e h = absurd (ground arith)
committed_fails db a after n (some f) false e h =
    inl (rolled_back-SameTables db (record after { statements = n }))
committed_fails db a after n (some f) true e h = inr (record {
  users = refl;
  telegram_users = refl;
  wallets = refl;
  policies = refl;
  heads = refl;
  audit_logs = refl;
})

ended_fails :
    {A : Type 0} (db : Db) (r : Result A) (after : Db) (e : Error)
    → (end_transaction db r after).0 ≡ err e
    → SameTables (end_transaction db r after).1 db
      ⊎ ((a : A) × (r ≡ ok a) × SameTables (end_transaction db r after).1 after)
ended_fails db (err f) after e h = inl (rolled_back-SameTables db after)
ended_fails db (ok a) after e h =
    elim (committed_fails db a after (after.statements + 1) (after.faults after.statements)
      (after.settled after.statements) e h) [
        | inl undone ↦ inl undone
        | inr kept ↦ inr (a, refl, kept)
      ]

-- A transaction that fails has left every table as it was, or it has committed what its statements did
-- and the answer was lost.
pub transaction_fails :
    {A : Type 0} (body : Exec Db A) (db : Db) (e : Error)
    → (transaction body db).0 ≡ err e
    → SameTables (transaction body db).1 db
      ⊎ ((a : A) × ((body db).0 ≡ ok a) × SameTables (transaction body db).1 (body db).1)
transaction_fails body db e h = ended_fails db (body db).0 (body db).1 e h
