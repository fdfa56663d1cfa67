-- ===== src/Examples/Admission.antt =====
-- A signed payload to the API of a small configuration.
use hoodalpha.Prelude.{ℕ, ◌≡◌, refl, true, false, none, some, arith}
use hoodalpha.Prelude.Int.{◌+ℤ◌, ◌-ℤ◌, scale, to_int64, to_word64}
use hoodalpha.Go.Text.{
  codes, text_eq, is_space, trim_space, before, split, digits_value, parse_int64,
}
use hoodalpha.Go.Error.{ok}
use hoodalpha.Go.Time.{saturate, since, add_duration, unix_time}
use hoodalpha.Domain.User.{is_valid_id, is_active, has_id, new_allowlist, allows}
use hoodalpha.App.Ports.{record_audit}
use hoodalpha.App.Onboarding.{Identity, admit, authorize}
use hoodalpha.App.MiniApp.{MiniAppAuth, authenticate_data, authenticate}
use hoodalpha.InitData.{
  decode_hex, check_string, new_verifier, is_signed, auth_date_of, user_of, check_replay,
  check_values, verify,
}
use hoodalpha.InitData.Query.{Values, value_of, hex_value, parse_query, text_le, sort_texts}
use hoodalpha.Http.{miniapp_route, require_init_data, miniapp, serve_route, serve}
use hoodalpha.Http.Requests.{session, HttpRequest, Server, init_data}
use hoodalpha.Config.{enabled}
use hoodalpha.Cmd.Api.{api_auth, api_server}
use hoodalpha.Cmd.Api.Admission.{api_admits}
use hoodalpha.Examples.Signed.{toy, payload}
use hoodalpha.Examples.Web.{request_for}
use hoodalpha.Examples.Processes.{bot_env, bot_loaded, small_libraries, small_ports}
use hoodalpha.Config.Allowed.{to_telegram_ids}
use hoodalpha.InitData.Types.{InitUser}

abbrev pub signed_request : HttpRequest
signed_request = record (request_for session) { init_data_header = payload }

server : (s : Server ℕ) × (api_server small_libraries small_ports bot_loaded.0 none ≡ ok s)
unfolding api_server api_auth new_verifier bot_loaded enabled text_eq codes
server = (_, refl)

session_status : (serve server.0 signed_request 0).0.status ≡ 200
unfolding serve serve_route miniapp require_init_data text_eq init_data codes authenticate
    authenticate_data authorize admit is_valid_id allows new_allowlist miniapp_route server
    bot_loaded verify check_values is_signed auth_date_of user_of check_replay add_duration
    trim_space is_space parse_query value_of hex_value decode_hex check_string sort_texts text_le
    parse_int64 digits_value unix_time to_int64 to_word64 scale ◌-ℤ◌ ◌+ℤ◌ since saturate before
    split record_audit to_telegram_ids
session_status = refl

api_admits_example :
    (a : MiniAppAuth ℕ) × (values : Values) × (user : InitUser) × (id : Identity) × (server.0.auth
      ≡ some a)
    × (parse_query (init_data signed_request) ≡ ok values)
    × (is_signed toy (toy.hmac_sha256 (codes "WebAppData") bot_loaded.0.telegram.bot_token) values
        ≡ true)
    × (user_of toy values ≡ ok user)
    × (has_id user.id bot_loaded.0.telegram.allowed_user_ids ≡ true)
    × (user.is_bot ≡ false)
    × (is_active id.user.status ≡ true)
    × ((authenticate a (init_data signed_request) 0).0 ≡ ok id)
    × (serve server.0 signed_request 0
        ≡ miniapp_route server.0 signed_request.route signed_request.body id
            (authenticate a (init_data signed_request) 0).1)
unfolding bot_loaded enabled text_eq codes
api_admits_example =
    api_admits small_libraries small_ports bot_loaded.0 none server.0 server.1 bot_env
      signed_request 0 bot_loaded.1 refl refl (λ e. ground (arith, session_status, e))
