-- ===== src/InitData/ThirdParty.antt =====
-- `VerifyThirdParty` and `decodeBase64URL`: the check without the bot token.
use hoodalpha.Prelude.{◌==◌, if◌then◌else◌, length, not, Option, none, some, []}
use hoodalpha.Prelude.Int.{ℤ, pos, leb_ℤ}
use hoodalpha.Go.Text.{Text, codes, text_eq}
use hoodalpha.Go.Error.{new, tagged, message, Result, ok, err}
use hoodalpha.InitData.Query.{Values, value_of, parse_query}
use hoodalpha.InitData.{decode_hex, third_party_string, auth_date_of}
use hoodalpha.InitData.Types.{
  err_missing_hash, err_invalid_signature, err_missing_user, err_malformed, InitUser, Data, Library,
}

module _ (library : Library) where
  -- `decodeBase64URL`
  unfoldable pub decode_base64_url : Text → Option Text
  decode_base64_url s = elim (library.raw_url_base64 s) [
    | some b ↦ some b
    | none ↦ library.url_base64 s
  ]

  -- The user of `VerifyThirdParty`: an absent field is the zero `User`, whose identifier is 0.
  unfoldable pub third_party_user : Values → Result InitUser
  third_party_user values =
      let raw = value_of values (codes "user") in
      if text_eq raw [] then err err_missing_user else elim (library.unmarshal_user raw) [
        | none ↦ err (tagged err_malformed (codes "user is not valid json"))
        | some user ↦ if leb_ℤ user.id (pos 0) then err err_missing_user else ok user
      ]

  -- The signature test of `VerifyThirdParty`.
  unfoldable pub check_third_party : Values → ℤ → Text → Result Unit
  unfolding decode_base64_url
  check_third_party values bot_id public_key_hex =
      let signature = value_of values (codes "signature") in
      if text_eq signature [] then err err_missing_hash else elim (decode_base64_url signature) [
        | none ↦ err err_invalid_signature
        | some sig ↦ elim (decode_hex public_key_hex) [
          | none ↦ err (new (codes "invalid telegram public key"))
          | some key ↦
              if not (length key == 32)
              then err (new (codes "invalid telegram public key"))
              else if not (library.ed25519_verify key (third_party_string values bot_id) sig)
              then err err_invalid_signature
              else ok tt
        ]
      ]

  -- `VerifyThirdParty`
  unfoldable pub verify_third_party : Text → ℤ → Text → Result Data
  unfolding third_party_user check_third_party
  verify_third_party raw bot_id public_key_hex = elim (parse_query raw) [
    | err e ↦ err (tagged err_malformed (message e))
    | ok values ↦ elim (check_third_party values bot_id public_key_hex) [
      | err e ↦ err e
      | ok _ ↦ elim (auth_date_of library values) [
        | err e ↦ err e
        | ok auth_date ↦ elim (third_party_user values) [
          | err e ↦ err e
          | ok user ↦ ok (record {
            user = user;
            auth_date = auth_date;
            query_id = value_of values (codes "query_id");
            chat_type = value_of values (codes "chat_type");
            chat_id = pos 0;
            start_param = value_of values (codes "start_param");
            hash = value_of values (codes "hash");
          })
        ]
      ]
    ]
  ]
