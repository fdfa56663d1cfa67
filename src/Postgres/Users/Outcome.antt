-- ===== src/Postgres/Users/Outcome.antt =====
-- What `EnsureTelegramUser` of users.go has done, by how it ended.
use hoodalpha.Prelude.{
  Bool-cases, Option-cases, any, find, ◌≡◌, refl, sym, ap, ◌∙◌, ◌⊎◌, inl, inr, Bool, true, false,
  none, some, ◌∷◌, arith,
}
use hoodalpha.Go.Text.{text_eq}
use hoodalpha.Go.Error.{same, Error, ok, err}
use hoodalpha.Domain.User.{is_valid_id, User, TelegramUser}
use hoodalpha.Postgres.Tables.{Db, Postgres, statement, draw_uuid, transaction, update_where}
use hoodalpha.Postgres.Users.{
  has_telegram_id, has_user_id, new_user, new_identity, refreshed, create_identity,
  refresh_identity, load_identity, ensure_rows, ensure_telegram_user,
}
use hoodalpha.Postgres.Transactions.{SameTables, transaction_fails}

module _ (pg : Postgres) (t : TelegramUser) (db : Db) where
  -- What an `EnsureTelegramUser` that created an account has found and written.
  abbrev pub Created : User → TelegramUser → Db → Type 0
  Created user stored after =
      let id = db.uuids db.drawn in
      (find (has_telegram_id t.telegram_id) db.telegram_users ≡ none)
      × (any (λ u. text_eq u.user_id id) db.telegram_users ≡ false)
      × (after.users ≡ new_user id db.now ∷ db.users)
      × (after.telegram_users ≡ new_identity id db.now t ∷ db.telegram_users)
      × (find (has_user_id id) after.users ≡ some user)
      × (find (has_telegram_id t.telegram_id) after.telegram_users ≡ some stored)

  -- What one that found the identity has written.
  abbrev pub Refreshed : TelegramUser → User → TelegramUser → Db → Type 0
  Refreshed row user stored after =
      (find (has_telegram_id t.telegram_id) db.telegram_users ≡ some row)
      × (after.users ≡ db.users)
      × (after.telegram_users
          ≡ update_where (has_telegram_id t.telegram_id) (refreshed t db.now) db.telegram_users)
      × (find (has_user_id row.user_id) after.users ≡ some user)
      × (find (has_telegram_id t.telegram_id) after.telegram_users ≡ some stored)

  pub ensure-Created :
      (user : User) (stored : TelegramUser) (created : Bool)
      → (ensure_telegram_user pg t db).0 ≡ ok (user, stored, created)
      → find (has_telegram_id t.telegram_id) db.telegram_users ≡ none
      → (created ≡ true) × Created user stored (ensure_telegram_user pg t db).1
  unfolding ensure_telegram_user ensure_rows create_identity load_identity statement draw_uuid
  ensure-Created user stored created h absent = ground arith

  pub ensure-Refreshed :
      (row : TelegramUser) (user : User) (stored : TelegramUser) (created : Bool)
      → (ensure_telegram_user pg t db).0 ≡ ok (user, stored, created)
      → find (has_telegram_id t.telegram_id) db.telegram_users ≡ some row
      → (created ≡ false) × Refreshed row user stored (ensure_telegram_user pg t db).1
  unfolding ensure_telegram_user ensure_rows refresh_identity load_identity statement
  ensure-Refreshed row user stored created h known = ground arith

  -- What the statements have written, where they succeed behind the BEGIN.
  ensure_rows-Created :
      (user : User) (stored : TelegramUser) (created : Bool)
      → (ensure_rows pg t (statement db).1).0 ≡ ok (user, stored, created)
      → find (has_telegram_id t.telegram_id) db.telegram_users ≡ none
      → Created user stored (ensure_rows pg t (statement db).1).1
  unfolding ensure_rows create_identity load_identity statement draw_uuid
  ensure_rows-Created user stored created h absent = ground arith

  ensure_rows-Refreshed :
      (row : TelegramUser) (user : User) (stored : TelegramUser) (created : Bool)
      → (ensure_rows pg t (statement db).1).0 ≡ ok (user, stored, created)
      → find (has_telegram_id t.telegram_id) db.telegram_users ≡ some row
      → Refreshed row user stored (ensure_rows pg t (statement db).1).1
  unfolding ensure_rows refresh_identity load_identity statement
  ensure_rows-Refreshed row user stored created h known = ground arith

  -- What a success has written, or a transaction that has committed although it gave an error.
  abbrev pub Stored : Db → Type 0
  Stored after =
      ((user : User) × (stored : TelegramUser) × Created user stored after)
      ⊎ ((row : TelegramUser) × (user : User) × (stored : TelegramUser) × Refreshed row user stored
            after)

  same_Stored : {after done : Db} → SameTables after done → Stored done → Stored after
  same_Stored same (inl (user, stored, facts)) =
      inl (user, stored, rw (same.users, same.telegram_users) facts)
  same_Stored same (inr (row, user, stored, facts)) =
      inr (row, user, stored, rw (same.users, same.telegram_users) facts)

  ensure_rows-Stored :
      (user : User) (stored : TelegramUser) (created : Bool)
      → (ensure_rows pg t (statement db).1).0 ≡ ok (user, stored, created)
      → Stored (ensure_rows pg t (statement db).1).1
  ensure_rows-Stored user stored created h =
      elim (Option-cases (find (has_telegram_id t.telegram_id) db.telegram_users)) [
        | inl absent ↦ inl (user, stored, ensure_rows-Created user stored created h absent)
        | inr (row, known) ↦
            inr (row, user, stored, ensure_rows-Refreshed row user stored created h known)
      ]

  before_rows :
      ((is_valid_id t.telegram_id ≡ false)
        ⊎ ((is_valid_id t.telegram_id ≡ true) × (f : Error) × (db.faults db.statements ≡ some f)))
      → SameTables (ensure_telegram_user pg t db).1 db
  unfolding ensure_telegram_user statement
  before_rows (inl bad) = ground arith
  before_rows (inr (valid, f, lost)) = ground arith

  ensure_begun :
      is_valid_id t.telegram_id ≡ true
      → db.faults db.statements ≡ none
      → ensure_telegram_user pg t db ≡ transaction (ensure_rows pg t) (statement db).1
  unfolding ensure_telegram_user statement
  ensure_begun valid answers = rw (valid, answers) refl

  begun_tables : {after : Db} → SameTables after (statement db).1 → SameTables after db
  unfolding statement
  begun_tables same = ground arith

  -- An `EnsureTelegramUser` that fails has left every table as it was, or it has stored what a success
  -- stores and only the answer to its COMMIT was lost.
  pub ensure_fails :
      (e : Error)
      → (ensure_telegram_user pg t db).0 ≡ err e
      → SameTables (ensure_telegram_user pg t db).1 db ⊎ Stored (ensure_telegram_user pg t db).1
  ensure_fails e h = elim (Bool-cases (is_valid_id t.telegram_id)) [
    | inr bad ↦ inl (before_rows (inl bad))
    | inl valid ↦ elim (Option-cases (db.faults db.statements)) [
      | inr (f, lost) ↦ inl (before_rows (inr (valid, f, lost)))
      | inl answers ↦
          let same = ensure_begun valid answers in
          elim (transaction_fails (ensure_rows pg t) (statement db).1 e
            (ap (λ r. r.0) (sym same) ∙ h)) [
              | inl undone ↦ inl (rw same (begun_tables undone))
              | inr ((user, stored, created), done, kept) ↦
                  inr (rw same (same_Stored kept (ensure_rows-Stored user stored created done)))
            ]
    ]
  ]
