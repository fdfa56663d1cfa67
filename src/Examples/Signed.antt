-- ===== src/Examples/Signed.antt =====
-- A signed payload from the verifier to the session.
use hoodalpha.Prelude.{length, ℕ, ◌+◌, ◌%◌, ◌≡◌, refl, true, false, none, some, [], ◌∷◌, arith}
use hoodalpha.Prelude.Int.{pos, ◌+ℤ◌, ◌-ℤ◌, scale, ◌≤ℤ◌, ltb_ℤ, to_int64, to_word64}
use hoodalpha.Go.Text.{
  Text, codes, text_eq, is_space, trim_space, before, split, digits_value, parse_int64,
}
use hoodalpha.Go.Error.{ok, is_ok}
use hoodalpha.Go.Exec.{Exec, pure}
use hoodalpha.Go.Time.{minute, saturate, since, add_duration, unix_time}
use hoodalpha.Domain.User.{user_active, User, new_allowlist}
use hoodalpha.App.Onboarding.{Onboarding}
use hoodalpha.App.MiniApp.{MiniAppAuth}
use hoodalpha.InitData.{
  decode_hex, check_string, is_signed, auth_date_of, user_of, check_replay, check_values, verify,
}
use hoodalpha.InitData.Query.{Values, value_of, hex_value, parse_query, text_le, sort_texts}
use hoodalpha.InitData.Guard.{Redis, request, is_live, set_nx, guard_key, first_use}
use hoodalpha.InitData.Accepted.{IsFirstUse, verify_ok}
use hoodalpha.InitData.Replay.{guarded_verifier, verify_at, accepted_once}
use hoodalpha.InitData.Types.{InitUser, Data, Library}

abbrev seven : InitUser
seven = record {
  id = pos 7;
  is_bot = false;
  first_name = codes "Ann";
  last_name = [];
  username = [];
  language_code = [];
  is_premium = false;
  photo_url = [];
}

-- A MAC of one byte, the length of the message, and a decoder that knows one user.
abbrev pub toy : Library
toy = record {
  hmac_sha256 = λ key text. length text % 256 ∷ [];
  ed25519_verify = λ _ _ _. false;
  raw_url_base64 = λ _. none;
  url_base64 = λ _. none;
  unmarshal_user = λ _. some seven;
}

-- Signed at second 100: the data-check string has 20 characters.
abbrev pub payload : Text
payload = codes "auth_date=100&user=u&hash=14"

abbrev pub fresh_redis : Redis
fresh_redis = record {
  entries = [];
  now = pos 105_000_000_000;
  server_now = pos 107_000_000_000;
  kept_for = λ d. d;
  faults = λ _. none;
  requests = 0;
}

verified :
    (found : Data) × ((verify_at toy []
        (codes "replay")
        60_000_000_000
        minute
        payload
        fresh_redis).0
      ≡ ok found)
unfolding verify check_values is_signed auth_date_of user_of check_replay add_duration codes
    trim_space is_space parse_query value_of hex_value decode_hex check_string sort_texts text_le
    text_eq parse_int64 digits_value unix_time to_int64 to_word64 scale ◌-ℤ◌ ◌+ℤ◌ since saturate
    first_use set_nx guard_key request is_live before split
verified = (_, refl)

-- One second later, by both clocks.
abbrev later_redis : Redis
later_redis =
    record (verify_at toy [] (codes "replay") 60_000_000_000 minute payload fresh_redis).1 {
      now = pos 106_000_000_000;
      server_now = pos 108_000_000_000;
    }

accepted_once_example :
    is_ok (verify_at toy [] (codes "replay") 60_000_000_000 minute payload later_redis).0 ≡ false
unfolding ◌-ℤ◌
accepted_once_example =
    accepted_once toy [] (codes "replay") 60_000_000_000 minute payload fresh_redis later_redis
      verified.0 60_000 refl (omega arith) (omega arith) (λ ms positive. refl) (omega arith)
      verified.1 (λ key until kept now_le. kept)

verify_ok_example :
    (values : Values) × (parse_query payload ≡ ok values)
    × (is_signed toy [] values ≡ true)
    × (verified.0.hash ≡ value_of values (codes "hash"))
    × (auth_date_of toy values ≡ ok verified.0.auth_date)
    × (fresh_redis.now -ℤ verified.0.auth_date ≤ℤ pos 60_000_000_000)
    × (verified.0.auth_date -ℤ fresh_redis.now ≤ℤ pos minute)
    × (ltb_ℤ (pos 0) verified.0.user.id ≡ true)
    × IsFirstUse toy
        (guarded_verifier [] (codes "replay") (pos 60_000_000_000) (pos minute))
        verified.0.hash
        fresh_redis
verify_ok_example =
    verify_ok toy (guarded_verifier [] (codes "replay") (pos 60_000_000_000) (pos minute)) payload
      fresh_redis verified.0 60_000_000_000 minute refl (omega arith) refl (omega arith) verified.1

-- Accounts that the store has already, each active.
abbrev known_user : User
known_user = record {
  id = codes "ann";
  status = user_active;
  created_at = pos 0;
  updated_at = pos 0;
}

abbrev pub desk : Onboarding ℕ
desk = record {
  users = record { ensure_telegram_user = λ t n. (ok (known_user, t, false), n + 1) };
  audit = none;
  allowlist = new_allowlist (pos 7 ∷ []);
}

abbrev pub accepting : Text → Exec ℕ Data
accepting _ = pure (record {
  user = seven;
  auth_date = pos 0;
  query_id = [];
  chat_type = [];
  chat_id = pos 0;
  start_param = [];
  hash = [];
})

abbrev pub gate : (Text → Exec ℕ Data) → MiniAppAuth ℕ
gate verify = record { verifier = some verify; onboarding = desk; audit = none }
