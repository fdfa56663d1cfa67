-- ===== src/Postgres/Users/Linked.antt =====
-- The keys of the tables `users` and `telegram_users` under `EnsureTelegramUser` of users.go.
use hoodalpha.Prelude.{
  Bool-cases, Option-cases, any, find, All, Pairs, All-imp, All-of_any, ◌≡◌, inl, inr, Bool, true,
  false, none, List, [], ◌∷◌, arith,
}
use hoodalpha.Go.Text.{Text, text_eq_refl, text_eq}
use hoodalpha.Go.Error.{Result-cases}
use hoodalpha.Go.Time.{Time}
use hoodalpha.Domain.User.{TelegramId, User, TelegramUser}
use hoodalpha.Postgres.Tables.{Db, Postgres, updated, All-update_where, Pairs-update_where}
use hoodalpha.Postgres.Users.{
  has_telegram_id, has_user_id, new_user, refreshed, ensure_telegram_user,
}
use hoodalpha.Postgres.Users.Outcome.{
  Created, Refreshed, ensure-Created, ensure-Refreshed, ensure_fails,
}

-- The account of an identity is there.
abbrev pub HasAccount : List User → TelegramUser → Type 0
HasAccount users t = any (has_user_id t.user_id) users ≡ true

-- Two identities have two Telegram identifiers and two accounts.
abbrev pub OtherIdentity : TelegramUser → TelegramUser → Type 0
OtherIdentity t u =
    (has_telegram_id t.telegram_id u ≡ false) × (text_eq u.user_id t.user_id ≡ false)

-- The keys of the two tables.
abbrev pub IsLinked : Db → Type 0
IsLinked db = All (HasAccount db.users) db.telegram_users × Pairs OtherIdentity db.telegram_users

HasAccount-cons :
    (row : User) (users : List User) (t : TelegramUser)
    → HasAccount users t
    → HasAccount (row ∷ users) t
HasAccount-cons row users t h = ground arith

absent_All :
    (id : TelegramId) (rows : List TelegramUser)
    → find (has_telegram_id id) rows ≡ none
    → All (λ u. has_telegram_id id u ≡ false) rows
absent_All id [] h = tt
absent_All id (u ∷ rows) h = ground (arith, absent_All id rows)

both_All :
    {A : Type 0} (P Q : A → Type 0) (xs : List A) → All P xs → All Q xs → All (λ x. P x × Q x) xs
both_All P Q [] h k = tt
both_All P Q (x ∷ xs) (p, h) (q, k) = ((p, q), both_All P Q xs h k)

module _ (test : TelegramUser → Bool) (t : TelegramUser) (now : Time) where
  refreshed-HasAccount :
      (users : List User) (row : TelegramUser)
      → HasAccount users row
      → HasAccount users (updated test (refreshed t now) row)
  refreshed-HasAccount users row h = elim (Bool-cases (test row)) [
    | inl e ↦ rw (e, h)
    | inr e ↦ rw (e, h)
  ]

  refreshed-Other :
      (row other : TelegramUser)
      → OtherIdentity row other
      → OtherIdentity (updated test (refreshed t now) row) (updated test (refreshed t now) other)
  refreshed-Other row other (p, q) = ground arith

module _ (pg : Postgres) (t : TelegramUser) (db : Db) where
  Created-IsLinked :
      (user : User) (stored : TelegramUser) (after : Db)
      → Created pg t db user stored after
      → IsLinked db
      → IsLinked after
  Created-IsLinked user stored after (absent, free, users, rows, _, _) (linked, apart) =
      let id : Text = db.uuids db.drawn in
      rw (users, rows)
        (
          (
            rw (text_eq_refl id),
            All-imp (HasAccount db.users) (HasAccount (new_user id db.now ∷ db.users))
                db.telegram_users (HasAccount-cons (new_user id db.now) db.users) linked,
          ),
          (
            both_All _ _ db.telegram_users (absent_All t.telegram_id db.telegram_users absent)
                (All-of_any _ db.telegram_users free),
            apart,
          ),
        )

  Refreshed-IsLinked :
      (row : TelegramUser) (user : User) (stored : TelegramUser) (after : Db)
      → Refreshed pg t db row user stored after
      → IsLinked db
      → IsLinked after
  Refreshed-IsLinked row user stored after (_, users, rows, _, _) (linked, apart) =
      let test : TelegramUser → Bool = has_telegram_id t.telegram_id in
      rw (users, rows)
        (
          All-update_where test (refreshed t db.now) (HasAccount db.users) (HasAccount db.users)
              db.telegram_users (refreshed-HasAccount test t db.now db.users) linked,
          Pairs-update_where test (refreshed t db.now) OtherIdentity db.telegram_users
              (refreshed-Other test t db.now) apart,
        )

  -- `EnsureTelegramUser` keeps the keys of the two tables, whether it succeeds or fails at any of its
  -- statements: no identity points at no account, and no two share an identifier or an account.
  pub ensure-IsLinked : IsLinked db → IsLinked (ensure_telegram_user pg t db).1
  ensure-IsLinked c = elim (Result-cases (ensure_telegram_user pg t db).0) [
    | inl ((user, stored, created), e) ↦
        elim (Option-cases (find (has_telegram_id t.telegram_id) db.telegram_users)) [
          | inl absent ↦
              Created-IsLinked user stored (ensure_telegram_user pg t db).1
                (ensure-Created pg t db user stored created e absent).1 c
          | inr (row, known) ↦
              Refreshed-IsLinked row user stored (ensure_telegram_user pg t db).1
                (ensure-Refreshed pg t db row user stored created e known).1 c
        ]
    | inr (f, e) ↦ elim (ensure_fails pg t db f e) [
      | inl kept ↦ rw (kept.users, kept.telegram_users) c
      | inr (inl (user, stored, facts)) ↦
          Created-IsLinked user stored (ensure_telegram_user pg t db).1 facts c
      | inr (inr (row, user, stored, facts)) ↦
          Refreshed-IsLinked row user stored (ensure_telegram_user pg t db).1 facts c
    ]
  ]
