-- ===== src/InitData/Types.antt =====
-- The errors and the data of internal/telegram/initdata/initdata.go.
use hoodalpha.Prelude.{Bool, Option, none, some}
use hoodalpha.Prelude.Int.{ℤ}
use hoodalpha.Go.Text.{Text, codes}
use hoodalpha.Go.Error.{
  missing_hash, invalid_signature, expired, future_auth_date, missing_auth_date, missing_user,
  replayed, malformed, Error, variable, Result, ok, err,
}
use hoodalpha.Go.Exec.{Exec}
use hoodalpha.Go.Time.{Time, Duration}

abbrev pub err_missing_hash : Error
err_missing_hash = variable missing_hash (codes "init data has no hash")

abbrev pub err_invalid_signature : Error
err_invalid_signature = variable invalid_signature (codes "init data signature is invalid")

abbrev pub err_expired : Error
err_expired = variable expired (codes "init data has expired")

abbrev pub err_future_auth_date : Error
err_future_auth_date = variable future_auth_date (codes "init data auth_date is in the future")

abbrev pub err_missing_auth_date : Error
err_missing_auth_date = variable missing_auth_date (codes "init data has no auth_date")

abbrev pub err_missing_user : Error
err_missing_user = variable missing_user (codes "init data has no user")

abbrev pub err_replayed : Error
err_replayed = variable replayed (codes "init data has already been used")

abbrev pub err_malformed : Error
err_malformed = variable malformed (codes "init data is malformed")

-- `User`
pub record InitUser : Type 0 where
  pub id : ℤ
  pub is_bot : Bool
  pub first_name : Text
  pub last_name : Text
  pub username : Text
  pub language_code : Text
  pub is_premium : Bool
  pub photo_url : Text

-- `Data`
pub record Data : Type 0 where
  pub user : InitUser
  pub auth_date : Time
  pub query_id : Text
  pub chat_type : Text
  pub chat_id : ℤ
  pub start_param : Text
  pub hash : Text

-- The packages of the standard library that are not modelled: `crypto/hmac` over `crypto/sha256` with
-- the key first, `crypto/ed25519` with the key, the message and the signature, the two encodings of
-- `encoding/base64`, and `json.Unmarshal` into a `User`.
pub record Library : Type 0 where
  pub hmac_sha256 : Text → Text → Text
  pub ed25519_verify : Text → Text → Text → Bool
  pub raw_url_base64 : Text → Option Text
  pub url_base64 : Text → Option Text
  pub unmarshal_user : Text → Option InitUser

-- `ReplayGuard`
abbrev pub ReplayGuard : Type 0 → Type 0
ReplayGuard S = Text → Duration → Exec S Bool

-- `Verifier`
pub record Verifier (S : Type 0) : Type 0 where
  pub secret_key : Text
  pub ttl : Duration
  pub guard : Option (ReplayGuard S)
  pub now : S → Time
  pub clock_skew : Duration

-- `Options`
pub record Options (S : Type 0) : Type 0 where
  pub bot_token : Text
  pub ttl : Duration
  pub guard : Option (ReplayGuard S)
  pub now : S → Time
  pub clock_skew : Duration

abbrev pub or_error : {A : Type 0} → Error → Option A → Result A
or_error e none = err e
or_error e (some a) = ok a
