-- ===== src/Postgres/Users/Again.antt =====
-- What `EnsureTelegramUser` of users.go finds when it is called again.
use hoodalpha.Prelude.{
  Bool-cases, Option-cases, find, ℕ, ◌+◌, ◌≡◌, refl, ap, subst, inl, inr, Bool, true, false, none,
  some, List, [], ◌∷◌, arith,
}
use hoodalpha.Prelude.Int.{eqb_ℤ-refl}
use hoodalpha.Go.Text.{Text}
use hoodalpha.Go.Error.{same, ok}
use hoodalpha.Domain.User.{TelegramId, is_valid_id, User, TelegramUser}
use hoodalpha.Postgres.Tables.{Db, Postgres, statement, update_where}
use hoodalpha.Postgres.Users.{
  has_telegram_id, has_user_id, new_identity, refreshed, refresh_identity, load_identity,
  ensure_rows, ensure_telegram_user,
}
use hoodalpha.Postgres.Users.Outcome.{ensure-Created, ensure-Refreshed}

-- The first row that a test picks is the same one behind an update that keeps the test.
find-update_where :
    {A : Type 0} (test : A → Bool) (f : A → A) (xs : List A) (row : A)
    → ((x : A) → test (f x) ≡ test x)
    → find test xs ≡ some row
    → find test (update_where test f xs) ≡ some (f row)
find-update_where test f [] row keeps h = ground arith
find-update_where test f (x ∷ xs) row keeps h = elim (Bool-cases (test x)) [
  | inl e ↦ let first : x ≡ row = ground arith in ground (arith, keeps x, ap f first)
  | inr e ↦ ground (arith, keeps x, find-update_where test f xs row keeps)
]

module _ (pg : Postgres) (t : TelegramUser) (db : Db) where
  -- The identity that a success returns is stored, and the account it returns is the one the identity
  -- points to.
  ensure_stored :
      (user : User) (stored : TelegramUser) (created : Bool)
      → (ensure_telegram_user pg t db).0 ≡ ok (user, stored, created)
      → let after = (ensure_telegram_user pg t db).1 in
        (find (has_telegram_id t.telegram_id) after.telegram_users ≡ some stored)
        × (find (has_user_id stored.user_id) after.users ≡ some user)
  ensure_stored user stored created e =
      elim (Option-cases (find (has_telegram_id t.telegram_id) db.telegram_users)) [
        | inl absent ↦
            let (_, (_, _, _, rows, account, found)) =
              ensure-Created pg t db user stored created e absent in
            let id : Text = db.uuids db.drawn in
            let own : new_identity id db.now t ≡ stored =
              ground (arith, eqb_ℤ-refl t.telegram_id) in
            (
              found,
              subst
                  (λ (i : TelegramUser).
                    find (has_user_id i.user_id) (ensure_telegram_user pg t db).1.users ≡ some user)
                  own account,
            )
        | inr (row, known) ↦
            let (_, (_, _, rows, account, found)) =
              ensure-Refreshed pg t db row user stored created e known in
            let again : find (has_telegram_id t.telegram_id) (
                  update_where (has_telegram_id t.telegram_id) (refreshed t db.now)
                    db.telegram_users)
                ≡ some (refreshed t db.now row) =
              find-update_where (has_telegram_id t.telegram_id) (refreshed t db.now)
                db.telegram_users row (λ _. refl) known in
            let own : refreshed t db.now row ≡ stored = ground arith in
            (
              found,
              subst
                  (λ (i : TelegramUser).
                    find (has_user_id i.user_id) (ensure_telegram_user pg t db).1.users ≡ some user)
                  own account,
            )
      ]

  -- A call for an identity that is stored with its account succeeds where no statement fails, and its
  -- account is that one.
  ensure_known :
      (row : TelegramUser) (user : User)
      → is_valid_id t.telegram_id ≡ true
      → ((n : ℕ) → db.faults n ≡ none)
      → find (has_telegram_id t.telegram_id) db.telegram_users ≡ some row
      → find (has_user_id row.user_id) db.users ≡ some user
      → (ensure_telegram_user pg t db).0 ≡ ok (user, refreshed t db.now row, false)
  unfolding ensure_telegram_user ensure_rows refresh_identity load_identity statement
  ensure_known row user valid calm known account =
      rw
        (
          valid,
          calm db.statements,
          calm (db.statements + 1),
          known,
          calm (db.statements + 1 + 1),
          calm (db.statements + 1 + 1 + 1),
          account,
          calm (db.statements + 1 + 1 + 1 + 1),
          find-update_where (has_telegram_id t.telegram_id) (refreshed t db.now) db.telegram_users
              row (λ _. refl) known,
          calm (db.statements + 1 + 1 + 1 + 1 + 1),
        )
        refl

-- Between two states no account is lost or changed and every identity keeps its account; the clock, the
-- display fields of an identity, other rows and the other tables may have changed.
abbrev pub StillThere : Db → Db → Type 0
StillThere after later =
    ((id : TelegramId) (row : TelegramUser)
      → find (has_telegram_id id) after.telegram_users ≡ some row
      → (kept : TelegramUser) × (find (has_telegram_id id) later.telegram_users ≡ some kept)
        × (kept.user_id ≡ row.user_id))
    × ((id : Text) (user : User)
        → find (has_user_id id) after.users ≡ some user
        → find (has_user_id id) later.users ≡ some user)

-- Whoever has been let in once has the account from then on: behind a call that returned an account, a
-- call for the same Telegram identifier at any later state that still has the accounts and the identities
-- returns that account, as one that is not new and with the
-- new display fields, and adds no row to `users`, provided that no statement of it fails.
pub ensure_again :
    (pg : Postgres) (t again : TelegramUser) (db later : Db) (user : User) (stored : TelegramUser)
    (created : Bool)
    → is_valid_id again.telegram_id ≡ true
    → again.telegram_id ≡ t.telegram_id
    → (ensure_telegram_user pg t db).0 ≡ ok (user, stored, created)
    → StillThere (ensure_telegram_user pg t db).1 later
    → ((n : ℕ) → later.faults n ≡ none)
    → (row : TelegramUser) × (find (has_telegram_id t.telegram_id) later.telegram_users ≡ some row)
      × (row.user_id ≡ stored.user_id)
      × ((ensure_telegram_user pg again later).0 ≡ ok (user, refreshed again later.now row, false))
      × ((ensure_telegram_user pg again later).1.users ≡ later.users)
ensure_again pg t again db later user stored created valid alike e (identities, accounts) calm =
    let (found, account) = ensure_stored pg t db user stored created e in
    let (row, kept, same) = identities t.telegram_id stored found in
    let known : find (has_telegram_id again.telegram_id) later.telegram_users ≡ some row =
      rw alike kept in
    let own : find (has_user_id row.user_id) later.users ≡ some user =
      rw same (accounts stored.user_id user account) in
    let repeated : (ensure_telegram_user pg again later).0
        ≡ ok (user, refreshed again later.now row, false) =
      ensure_known pg again later row user valid calm known own in
    let (_, (_, users, _, _, _)) =
      ensure-Refreshed pg again later row user _ false repeated known in
    (row, kept, same, repeated, users)
