-- ===== src/Postgres/Tables.antt =====
-- The database as the repositories see it: tables of rows, statements that may fail, transactions.
-- What PostgreSQL and the driver decide is the interface `Postgres`.
use hoodalpha.Prelude.{
  if◌then◌else◌, any, All, Pairs, ℕ, ◌+◌, String, ◌≡◌, refl, Bool, true, false, Option, none, some,
  List, [], ◌∷◌,
}
use hoodalpha.Prelude.Int.{ℤ}
use hoodalpha.Go.Text.{Text, codes}
use hoodalpha.Go.Error.{not_found, same, Error, variable, wrap, Result, ok, err}
use hoodalpha.Go.Exec.{Exec}
use hoodalpha.Go.Time.{Time}
use hoodalpha.Domain.Address.{Hash}
use hoodalpha.Domain.User.{User, TelegramUser}
use hoodalpha.Domain.Wallet.{Wallet}
use hoodalpha.Domain.Policy.{WalletPolicy}
use hoodalpha.Domain.Audit.{AuditEvent}

-- `ErrNotFound` of users.go
abbrev pub err_not_found : Error
err_not_found = variable not_found (codes "not found")

-- A row of `chain_sync_state`.
pub record HeadRow : Type 0 where
  pub chain_id : ℤ
  pub chain_name : Text
  pub last_block_number : ℤ
  pub last_block_hash : Hash
  pub last_block_time : Time

-- The tables, and what the server will answer: whether the n-th statement fails, whether it has taken effect
-- all the same where it is the COMMIT of a transaction, and the n-th identifier that `gen_random_uuid()`
-- draws. `now` is the server's clock.
pub record Db : Type 0 where
  pub users : List User
  pub telegram_users : List TelegramUser
  pub wallets : List Wallet
  pub policies : List WalletPolicy
  pub heads : List HeadRow
  pub audit_logs : List AuditEvent
  pub faults : ℕ → Option Error
  pub settled : ℕ → Bool
  pub statements : ℕ
  pub uuids : ℕ → Text
  pub drawn : ℕ
  pub now : Time

-- PostgreSQL and its driver: which texts are UUIDs, what a refused identifier or constraint gives
-- as an error, and what the NUMERIC columns of `wallet_policies` make of a policy (rounding to their
-- scale, CHECK constraints). The columns that are not NUMERIC keep their values.
pub record Postgres : Type 0 where
  pub is_uuid : Text → Bool
  pub uuid_error : Text → Error
  pub constraint_error : String → Error
  pub to_columns : WalletPolicy → Result WalletPolicy
  pub to_columns-keeps :
      (p q : WalletPolicy)
      → to_columns p ≡ ok q
      → (q.trading_enabled ≡ p.trading_enabled) × (q.wallet_id ≡ p.wallet_id)

-- One round trip to the server. A statement that fails has changed nothing, a COMMIT excepted.
unfoldable pub statement : Exec Db Unit
statement db = (
  elim (db.faults db.statements) [ none ↦ ok tt | some e ↦ err e ],
  record db { statements = db.statements + 1 },
)

-- `gen_random_uuid()`
unfoldable pub draw_uuid : Exec Db Text
draw_uuid db = (ok (db.uuids db.drawn), record db { drawn = db.drawn + 1 })

-- The tables as they were, behind what the server has answered in the meantime.
abbrev pub rolled_back : Db → Db → Db
rolled_back db after = record db { statements = after.statements; drawn = after.drawn }

-- What a `COMMIT` leaves: where it gives an error, the transaction has taken effect or not.
abbrev pub committed : {A : Type 0} → Db → A → Db → Option Error → Bool → Result A × Db
committed db a done none settled = (ok a, done)
committed db a done (some e) true = (err (wrap (codes "commit") e), done)
committed db a done (some e) false = (err (wrap (codes "commit") e), rolled_back db done)

-- `COMMIT`
abbrev pub commit : {A : Type 0} → Db → A → Db → Result A × Db
commit db a after =
    committed db a (record after { statements = after.statements + 1 })
      (after.faults after.statements) (after.settled after.statements)

abbrev pub end_transaction : {A : Type 0} → Db → Result A → Db → Result A × Db
end_transaction db (ok a) after = commit db a after
end_transaction db (err e) after = (err e, rolled_back db after)

-- What follows `BEGIN`: the statements and the `COMMIT`. After an error before it nothing of them stays.
abbrev pub transaction : {A : Type 0} → Exec Db A → Exec Db A
transaction body db = let (r, after) = body db in end_transaction db r after

-- `UPDATE ... SET ... WHERE ...`
abbrev pub update_where {ℓ} : {A : Type ℓ} → (A → Bool) → (A → A) → List A → List A
update_where test f [] = []
update_where test f (x ∷ xs) = (if test x then f x else x) ∷ update_where test f xs

module _ {A : Type 0} (test : A → Bool) (f : A → A) where
  abbrev pub updated : A → A
  updated x = if test x then f x else x

  -- What holds of every row, and is kept by the update of a row, holds behind the update.
  pub All-update_where :
      (P Q : A → Type 0) (xs : List A)
      → ((x : A) → P x → Q (updated x))
      → All P xs
      → All Q (update_where test f xs)
  All-update_where P Q [] step h = tt
  All-update_where P Q (x ∷ xs) step (h, k) = (step x h, All-update_where P Q xs step k)

  pub Pairs-update_where :
      (R : A → A → Type 0) (xs : List A)
      → ((x y : A) → R x y → R (updated x) (updated y))
      → Pairs R xs
      → Pairs R (update_where test f xs)
  Pairs-update_where R [] step h = tt
  Pairs-update_where R (x ∷ xs) step (h, k) =
      (All-update_where (R x) (R (updated x)) xs (step x) h, Pairs-update_where R xs step k)

  -- A test that the update of a row keeps is answered alike behind the update.
  pub any-update_where :
      (p : A → Bool) (xs : List A)
      → ((x : A) → p (updated x) ≡ p x)
      → any p (update_where test f xs) ≡ any p xs
  any-update_where p [] same = refl
  any-update_where p (x ∷ xs) same = rw (same x, any-update_where p xs same)
