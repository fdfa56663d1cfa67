-- ===== src/Domain/User.antt =====
-- internal/domain/user.go: accounts, Telegram identities and the allowlist.
pub mod Allowed
use hoodalpha.Prelude.{
  ◌==◌, if◌then◌else◌, length, any, ℕ, Bool, true, false, not, ◌&&◌, List, [], ◌∷◌, ◌++◌,
}
use hoodalpha.Prelude.Int.{ℤ, pos, ltb_ℤ, eqb_ℤ}
use hoodalpha.Go.Text.{Text, codes, text_eq, trim_space, decimal_ℤ}
use hoodalpha.Go.Error.{unauthorized, Error, variable}
use hoodalpha.Go.Time.{Time}

-- `ErrUnauthorized`
abbrev pub err_unauthorized : Error
err_unauthorized = variable unauthorized (codes "unauthorized")

abbrev pub AccountId : Type 0
AccountId = Text

-- `TelegramUserID`, an `int64`.
abbrev pub TelegramId : Type 0
TelegramId = ℤ

-- `TelegramUserID.Valid`
unfoldable pub is_valid_id : TelegramId → Bool
is_valid_id t = ltb_ℤ (pos 0) t

-- `UserStatus`: any text can come from the database.
pub data UserStatus : Type 0 where
  user_active user_suspended : UserStatus
  user_unknown : Text → UserStatus

-- `UserStatus.Valid`
unfoldable pub is_valid_user_status : UserStatus → Bool
is_valid_user_status (user_unknown _) = false
is_valid_user_status _ = true

abbrev pub is_active : UserStatus → Bool
is_active user_active = true
is_active _ = false

abbrev pub user_status_text : UserStatus → Text
user_status_text user_active = codes "active"
user_status_text user_suspended = codes "suspended"
user_status_text (user_unknown t) = t

-- `User`
pub record User : Type 0 where
  pub id : AccountId
  pub status : UserStatus
  pub created_at : Time
  pub updated_at : Time

-- `TelegramUser`
pub record TelegramUser : Type 0 where
  pub telegram_id : TelegramId
  pub user_id : AccountId
  pub username : Text
  pub first_name : Text
  pub last_name : Text
  pub language_code : Text
  pub chat_id : ℤ
  pub created_at : Time
  pub updated_at : Time
  pub last_seen_at : Time

-- `TelegramUser.DisplayName`
unfoldable pub display_name : TelegramUser → Text
display_name t =
    let name = trim_space (t.first_name ++ codes " " ++ t.last_name) in
    if not (text_eq t.username [])
    then codes "@" ++ t.username
    else if not (text_eq name [])
    then name
    else codes "user " ++ decimal_ℤ t.telegram_id

-- `Allowlist`: a set, as the list of its entries.
pub record Allowlist : Type 0 where
  pub ids : List TelegramId

abbrev pub has_id : TelegramId → List TelegramId → Bool
has_id id = any (eqb_ℤ id)

-- The loop of `NewAllowlist`: what is not valid is left out, and a second entry changes nothing.
add_ids : List TelegramId → List TelegramId → List TelegramId
add_ids set [] = set
add_ids set (id ∷ rest) =
    add_ids (if is_valid_id id && not (has_id id set) then id ∷ set else set) rest

-- `NewAllowlist`
unfoldable pub new_allowlist : List TelegramId → Allowlist
unfolding add_ids
new_allowlist ids = record { ids = add_ids [] ids }

-- `Allowlist.Allows`
unfoldable pub allows : Allowlist → TelegramId → Bool
allows a id = if length a.ids == 0 then false else has_id id a.ids

-- `Allowlist.Empty`
unfoldable pub is_empty : Allowlist → Bool
is_empty a = length a.ids == 0

-- `Allowlist.Size`
unfoldable pub size : Allowlist → ℕ
size a = length a.ids
