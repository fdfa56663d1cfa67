-- ===== src/Postgres/Users.antt =====
-- users.go: the repository of accounts and Telegram identities.
pub mod Outcome
pub mod Linked
pub mod Again
use hoodalpha.Prelude.{any, find, Bool, true, false, not, Option, none, some, ◌∷◌}
use hoodalpha.Prelude.Int.{eqb_ℤ}
use hoodalpha.Go.Text.{codes, text_eq, before}
use hoodalpha.Go.Error.{Error, new, wrap, Result, ok, err}
use hoodalpha.Go.Exec.{Exec, pure, lift, wrapping, get, modify, fail_if, ◌>>=◌, ◌>>◌}
use hoodalpha.Go.Time.{Time}
use hoodalpha.Domain.User.{AccountId, TelegramId, is_valid_id, user_active, User, TelegramUser}
use hoodalpha.Postgres.Tables.{
  err_not_found, Db, Postgres, statement, draw_uuid, transaction, update_where,
}

abbrev pub has_telegram_id : TelegramId → TelegramUser → Bool
has_telegram_id id t = eqb_ℤ t.telegram_id id

abbrev pub has_user_id : AccountId → User → Bool
has_user_id id u = text_eq u.id id

-- The row that `INSERT INTO users` writes.
abbrev pub new_user : AccountId → Time → User
new_user id now = record { id = id; status = user_active; created_at = now; updated_at = now }

-- The row that `INSERT INTO telegram_users` writes. An empty text is stored as NULL and read back empty.
abbrev pub new_identity : AccountId → Time → TelegramUser → TelegramUser
new_identity user_id now t = record t {
  user_id = user_id;
  created_at = now;
  updated_at = now;
  last_seen_at = now;
}

-- What the refresh of the display fields writes to a row.
abbrev pub refreshed : TelegramUser → Time → TelegramUser → TelegramUser
refreshed t now row = record row {
  username = t.username;
  first_name = t.first_name;
  last_name = t.last_name;
  language_code = t.language_code;
  chat_id = t.chat_id;
  updated_at = now;
  last_seen_at = now;
}

module _ (pg : Postgres) where
  -- The branch for an identity that is not known: an account, and the identity that points to it.
  unfoldable pub create_identity : TelegramUser → Exec Db AccountId
  unfolding statement draw_uuid
  create_identity t = do
    wrapping (wrap (codes "create user")) statement
    id ← draw_uuid
    before ← get
    fail_if (any (has_user_id id) before.users)
        (wrap (codes "create user") (pg.constraint_error "users_pkey"))
    modify (λ d. record d { users = new_user id d.now ∷ d.users })
    wrapping (wrap (codes "link telegram user")) statement
    db ← get
    fail_if (any (λ u. text_eq u.user_id id) db.telegram_users)
        (wrap (codes "link telegram user") (pg.constraint_error "telegram_users_user_id_key"))
    modify (λ d. record d { telegram_users = new_identity id d.now t ∷ d.telegram_users })
    pure id

  -- The branch for an identity that is known: its display fields are refreshed.
  unfoldable pub refresh_identity : TelegramUser → TelegramUser → Exec Db AccountId
  unfolding statement
  refresh_identity t row = do
    wrapping (wrap (codes "refresh telegram user")) statement
    modify (λ d. record d {
      telegram_users =
          update_where (has_telegram_id t.telegram_id) (refreshed t d.now) d.telegram_users;
    })
    pure row.user_id

  abbrev no_rows : Error
  no_rows = new (codes "no rows in result set")

  abbrev one_row : {A : Type 0} → Error → Option A → Result A
  one_row e none = err e
  one_row e (some a) = ok a

  -- The two reads at the end of the transaction.
  unfoldable pub load_identity : TelegramUser → AccountId → Exec Db (User × TelegramUser)
  unfolding statement
  load_identity t id = do
    wrapping (wrap (codes "load user")) statement
    db ← get
    user ←
        wrapping (wrap (codes "load user"))
          (lift (one_row no_rows (find (has_user_id id) db.users)))
    wrapping (wrap (codes "scan telegram user")) statement
    stored ← lift (one_row err_not_found (find (has_telegram_id t.telegram_id) db.telegram_users))
    pure (user, stored)

  -- The statements of `EnsureTelegramUser` between its BEGIN and its COMMIT.
  unfoldable pub ensure_rows : TelegramUser → Exec Db (User × TelegramUser × Bool)
  unfolding statement create_identity refresh_identity load_identity
  ensure_rows t = do
    wrapping (wrap (codes "lookup telegram user")) statement
    db ← get
    elim (find (has_telegram_id t.telegram_id) db.telegram_users) [
      | none ↦ do
        id ← create_identity t
        loaded ← load_identity t id
        pure (loaded.0, loaded.1, true)
      | some row ↦ do
        id ← refresh_identity t row
        loaded ← load_identity t id
        pure (loaded.0, loaded.1, false)
    ]

  -- `EnsureTelegramUser`; the last component says whether the account is new.
  unfoldable pub ensure_telegram_user : TelegramUser → Exec Db (User × TelegramUser × Bool)
  unfolding statement ensure_rows
  ensure_telegram_user t = do
    fail_if (not (is_valid_id t.telegram_id)) (new (codes "invalid telegram id"))
    wrapping (wrap (codes "begin")) statement
    transaction (ensure_rows t)

  -- `GetTelegramUser`
  unfoldable pub get_telegram_user : TelegramId → Exec Db TelegramUser
  unfolding statement
  get_telegram_user id = do
    wrapping (wrap (codes "scan telegram user")) statement
    db ← get
    lift (one_row err_not_found (find (has_telegram_id id) db.telegram_users))

  -- `GetUser`
  unfoldable pub get_user : AccountId → Exec Db User
  unfolding statement
  get_user id = do
    wrapping (wrap (codes "get user"))
        (statement >> fail_if (not (pg.is_uuid id)) (pg.uuid_error id))
    db ← get
    lift (one_row err_not_found (find (has_user_id id) db.users))
