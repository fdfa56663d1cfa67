-- ===== src/Examples/Accounts.antt =====
-- A user who comes for the first time, and again under another name.
use hoodalpha.Prelude.{find, ◌≡◌, refl, true, false, some, []}
use hoodalpha.Prelude.Int.{pos, ◌+ℤ◌}
use hoodalpha.Go.Text.{Text, codes, text_eq}
use hoodalpha.Go.Error.{ok}
use hoodalpha.Domain.User.{is_valid_id, User, TelegramUser}
use hoodalpha.Postgres.Tables.{Db, statement, draw_uuid}
use hoodalpha.Postgres.Users.{
  has_telegram_id, refreshed, create_identity, load_identity, ensure_rows, ensure_telegram_user,
}
use hoodalpha.Postgres.Users.Linked.{IsLinked, ensure-IsLinked}
use hoodalpha.Examples.Store.{pg, empty_db}
use hoodalpha.Postgres.Users.Again.{ensure_again}
use hoodalpha.Go.Time.{minute}

abbrev visitor : Text → TelegramUser
visitor name = record {
  telegram_id = pos 7;
  user_id = [];
  username = name;
  first_name = [];
  last_name = [];
  language_code = [];
  chat_id = pos 7;
  created_at = pos 0;
  updated_at = pos 0;
  last_seen_at = pos 0;
}

ensure-IsLinked_example : IsLinked (ensure_telegram_user pg (visitor []) empty_db).1
ensure-IsLinked_example = ensure-IsLinked pg (visitor []) empty_db (tt, tt)

first_visit :
    (user : User) × (stored : TelegramUser) × ((ensure_telegram_user pg (visitor []) empty_db).0
      ≡ ok (user, stored, true))
unfolding ensure_telegram_user ensure_rows create_identity load_identity statement draw_uuid text_eq
    codes is_valid_id
first_visit = (_, _, refl)

abbrev after_visit : Db
after_visit = (ensure_telegram_user pg (visitor []) empty_db).1

-- A minute later.
abbrev next_visit : Db
next_visit = record after_visit { now = after_visit.now +ℤ pos minute }

ensure_again_example :
    (row : TelegramUser) × (find (has_telegram_id (pos 7)) next_visit.telegram_users ≡ some row)
    × (row.user_id ≡ first_visit.1.user_id)
    × ((ensure_telegram_user pg (visitor (codes "bob")) next_visit).0
        ≡ ok (first_visit.0, refreshed (visitor (codes "bob")) next_visit.now row, false))
    × ((ensure_telegram_user pg (visitor (codes "bob")) next_visit).1.users ≡ next_visit.users)
unfolding ensure_telegram_user ensure_rows create_identity load_identity statement draw_uuid text_eq
    codes is_valid_id
ensure_again_example =
    ensure_again pg (visitor []) (visitor (codes "bob")) empty_db next_visit first_visit.0
      first_visit.1 true refl refl first_visit.2 (λ id row e. (row, e, refl), λ id user e. e)
      (λ n. refl)
