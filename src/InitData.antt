-- ===== src/InitData.antt =====
-- internal/telegram/initdata: the proof that a Mini App request was signed by Telegram. A text stands
-- here for the bytes of a Go string.
pub mod Types
pub mod Query
pub mod Accepted
pub mod ThirdParty
pub mod Guard
pub mod Replay
use hoodalpha.Prelude.{
  if◌then◌else◌, keep, ℕ, ◌+◌, ◌*◌, Bool, false, not, ◌||◌, Option, none, some, List, [], ◌∷◌, ◌++◌,
  map,
}
use hoodalpha.Prelude.Int.{ℤ, pos, leb_ℤ, ltb_ℤ}
use hoodalpha.Go.Text.{Text, codes, text_eq, trim_space, decimal_ℤ, parse_int64}
use hoodalpha.Go.Error.{new, wrap, tagged, message, Result, ok, err}
use hoodalpha.Go.Exec.{Exec, pure, lift, wrapping, get, fail_if, ◌>>=◌, ◌>>◌}
use hoodalpha.Go.Time.{Time, Duration, minute, since, add_duration, unix_time}
use hoodalpha.InitData.Query.{Values, value_of, hex_value, parse_query, sort_texts}
use hoodalpha.InitData.Types.{
  err_missing_hash, err_invalid_signature, err_expired, err_future_auth_date, err_missing_auth_date,
  err_missing_user, err_replayed, err_malformed, InitUser, Data, Library, Verifier, Options,
}

abbrev or_default : Duration → Duration → Duration
or_default default d = if leb_ℤ d (pos 0) then default else d

-- A byte of two digits before decoded bytes.
abbrev with_byte : Option ℕ → Option ℕ → Option Text → Option Text
with_byte (some high) (some low) (some rest) = some ((16 * high + low) ∷ rest)
with_byte _ _ _ = none

-- `hex.DecodeString`: none for an odd number of digits or another character.
unfoldable pub decode_hex : Text → Option Text
decode_hex [] = some []
decode_hex (a ∷ []) = none
decode_hex (a ∷ b ∷ s) = with_byte (hex_value a) (hex_value b) (decode_hex s)

-- The keys that are signed.
abbrev is_signed_key : Text → Bool
is_signed_key k = not (text_eq k (codes "hash") || text_eq k (codes "signature"))

abbrev pub signed_keys : Values → List Text
signed_keys values = sort_texts (keep is_signed_key (map (λ entry. entry.0) values))

field : Values → Text → Text
unfolding value_of
field values k = k ++ b'=' ∷ value_of values k

-- The loop that joins the fields: the separator stands before every field but the first.
check_fields : Values → List Text → Text
check_fields values [] = []
check_fields values (k ∷ []) = field values k
check_fields values (k ∷ l ∷ ks) = field values k ++ 10 ∷ check_fields values (l ∷ ks)

-- The data-check string of `Verify`.
unfoldable pub check_string : Values → Text
unfolding check_fields field
check_string values = check_fields values (signed_keys values)

-- The loop of `VerifyThirdParty`: every field stands behind a separator.
led_fields : Values → List Text → Text
led_fields values [] = []
led_fields values (k ∷ ks) = 10 ∷ field values k ++ led_fields values ks

-- The data-check string of `VerifyThirdParty`.
unfoldable pub third_party_string : Values → ℤ → Text
unfolding led_fields field
third_party_string values bot_id =
    decimal_ℤ bot_id ++ codes ":WebAppData" ++ led_fields values (signed_keys values)

-- The chat identifier, 0 where it is absent or no number.
unfoldable pub chat_id_of : Values → ℤ
chat_id_of values = elim (parse_int64 (value_of values (codes "chat_instance"))) [
  | none ↦ pos 0
  | some id ↦ id
]

module _ (library : Library) where
  -- `NewVerifier`
  unfoldable pub new_verifier : {S : Type 0} → Options S → Result (Verifier S)
  new_verifier options =
      if text_eq options.bot_token []
      then err (new (codes "bot token is required to verify init data"))
      else ok (record {
        secret_key = library.hmac_sha256 (codes "WebAppData") options.bot_token;
        ttl = or_default (pos (24 * 60 * minute)) options.ttl;
        guard = options.guard;
        now = options.now;
        clock_skew = or_default (pos minute) options.clock_skew;
      })

  -- The signature test of `Verify`.
  unfoldable pub is_signed : Text → Values → Bool
  is_signed secret_key values = elim (decode_hex (value_of values (codes "hash"))) [
    | none ↦ false
    | some provided ↦ text_eq (library.hmac_sha256 secret_key (check_string values)) provided
  ]

  -- The time of the signature.
  unfoldable pub auth_date_of : Values → Result Time
  auth_date_of values =
      let raw = value_of values (codes "auth_date") in
      if text_eq raw [] then err err_missing_auth_date else elim (parse_int64 raw) [
        | none ↦ err (tagged err_malformed (codes "auth_date is not a unix timestamp"))
        | some seconds ↦ ok (unix_time seconds)
      ]

  -- The user of `Verify`.
  unfoldable pub user_of : Values → Result InitUser
  user_of values =
      let raw = value_of values (codes "user") in
      if text_eq raw [] then err err_missing_user else elim (library.unmarshal_user raw) [
        | none ↦ err (tagged err_malformed (codes "user is not valid json"))
        | some user ↦ if leb_ℤ user.id (pos 0) then err err_missing_user else ok user
      ]

  abbrev data_of : Values → InitUser → Time → Data
  data_of values user auth_date = record {
    user = user;
    auth_date = auth_date;
    query_id = value_of values (codes "query_id");
    chat_type = value_of values (codes "chat_type");
    chat_id = chat_id_of values;
    start_param = value_of values (codes "start_param");
    hash = value_of values (codes "hash");
  }

  module _ {S : Type 0} (v : Verifier S) where
    open v use {secret_key, ttl, clock_skew}

    -- The replay check, without which every signed payload passes.
    unfoldable pub check_replay : Text → Exec S Unit
    check_replay hash = elim v.guard [
      | none ↦ pure tt
      | some first_use ↦ do
        first ←
            wrapping (wrap (codes "replay check")) (first_use hash (add_duration ttl (pos minute)))
        fail_if (not first) err_replayed
    ]

    -- The tests of `Verify` before the replay check, which read nothing but the payload and the clock.
    unfoldable pub check_values : Values → Time → Result Data
    unfolding is_signed auth_date_of user_of
    check_values values now =
        if text_eq (value_of values (codes "hash")) []
        then err err_missing_hash
        else if not (is_signed secret_key values)
        then err err_invalid_signature
        else elim (auth_date_of values) [
          | err e ↦ err e
          | ok auth_date ↦
              if ltb_ℤ ttl (since now auth_date)
              then err err_expired
              else if ltb_ℤ clock_skew (since auth_date now)
              then err err_future_auth_date
              else elim (user_of values) [
                | err e ↦ err e
                | ok user ↦ ok (data_of values user auth_date)
              ]
        ]

    -- `Verify`
    unfoldable pub verify : Text → Exec S Data
    unfolding check_values check_replay
    verify raw = do
      fail_if (text_eq (trim_space raw) []) err_malformed
      values ← wrapping (λ e. tagged err_malformed (message e)) (lift (parse_query raw))
      s ← get
      payload ← lift (check_values values (v.now s))
      check_replay payload.hash
      pure payload
