-- ===== src/Examples/Replays.antt =====
-- A signed payload that comes to the API twice.
use hoodalpha.Prelude.{◌≡◌, refl, none, [], arith}
use hoodalpha.Prelude.Int.{pos, ◌+ℤ◌, ◌-ℤ◌, scale, to_int64, to_word64}
use hoodalpha.Go.Text.{
  codes, text_eq, is_space, trim_space, before, split, digits_value, parse_int64,
}
use hoodalpha.Go.Error.{new, ok}
use hoodalpha.Go.Exec.{fail}
use hoodalpha.Go.Time.{saturate, since, add_duration, unix_time}
use hoodalpha.Domain.User.{is_valid_id, new_allowlist, allows}
use hoodalpha.Domain.Audit.{new_audit_event, with_subject, with_outcome, with_detail}
use hoodalpha.App.Ports.{record_audit}
use hoodalpha.App.Onboarding.{admit, authorize}
use hoodalpha.App.MiniApp.{authenticate_data, authenticate}
use hoodalpha.InitData.{
  decode_hex, check_string, new_verifier, is_signed, auth_date_of, user_of, check_replay,
  check_values, verify,
}
use hoodalpha.InitData.Query.{value_of, hex_value, parse_query, text_le, sort_texts}
use hoodalpha.InitData.Guard.{Redis, request, is_live, set_nx, guard_key, first_use}
use hoodalpha.Http.{miniapp_route, require_init_data, miniapp, serve_route, serve}
use hoodalpha.Http.Requests.{Server, init_data}
use hoodalpha.Postgres.Tables.{statement, draw_uuid}
use hoodalpha.Postgres.Users.{
  create_identity, refresh_identity, load_identity, ensure_telegram_user,
}
use hoodalpha.Postgres.AuditLog.{record_event}
use hoodalpha.Config.{enabled}
use hoodalpha.Config.Allowed.{to_telegram_ids}
use hoodalpha.Cmd.Api.{api_auth, api_server}
use hoodalpha.System.Site.{Site, Connected, site_ports}
use hoodalpha.System.Site.Replay.{replayed_refused}
use hoodalpha.Examples.Signed.{fresh_redis}
use hoodalpha.Examples.Store.{pg, world}
use hoodalpha.Examples.Processes.{bot_env, bot_loaded, small_libraries}
use hoodalpha.Examples.Admission.{signed_request}

abbrev silent : Connected
silent = record {
  blocks = record { chain_id = fail (new []); latest_block = fail (new []) };
  ping_postgres = fail (new []);
  ping_redis = fail (new []);
}

abbrev site : Site
site = record { world = world; redis = fresh_redis }

server :
    (s : Server Site) × (api_server small_libraries
        (site_ports pg (λ _ _. []) silent)
        bot_loaded.0
        none
      ≡ ok s)
unfolding api_server api_auth new_verifier bot_loaded enabled text_eq codes
server = (_, refl)

first_status : (serve server.0 signed_request site).0.status ≡ 200
unfolding serve serve_route miniapp require_init_data text_eq init_data codes authenticate
    authenticate_data authorize admit is_valid_id allows new_allowlist miniapp_route server
    bot_loaded verify check_values is_signed auth_date_of user_of check_replay add_duration
    trim_space is_space parse_query value_of hex_value decode_hex check_string sort_texts text_le
    parse_int64 digits_value unix_time to_int64 to_word64 scale ◌-ℤ◌ ◌+ℤ◌ since saturate before
    split record_audit to_telegram_ids first_use set_nx guard_key request is_live
    ensure_telegram_user create_identity refresh_identity load_identity statement draw_uuid
    record_event new_audit_event with_subject with_outcome with_detail
first_status = refl

-- Redis one second behind the first request.
abbrev later : Redis
later = record (serve server.0 signed_request site).1.redis {
  now = pos 106_000_000_000;
  server_now = pos 108_000_000_000;
}

replayed_refused_example :
    (serve server.0 signed_request (record site { redis = later })).0.status ≡ 401
unfolding bot_loaded enabled text_eq codes init_data ◌-ℤ◌
replayed_refused_example =
    replayed_refused small_libraries pg (λ _ _. []) silent bot_loaded.0 none server.0 server.1
      bot_env 900_000_000_000 900_000 signed_request signed_request site
      (record site { redis = later }) bot_loaded.1 refl refl refl (omega arith)
      (λ ms positive. refl) (omega arith) refl refl refl (λ e. ground (arith, first_status, e))
      (λ key until kept now_le. kept)
