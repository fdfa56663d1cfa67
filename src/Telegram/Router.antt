-- ===== src/Telegram/Router.antt =====
-- `Router` of internal/telegram/router.go: an update from parsing to the reply.
pub mod Gate
pub mod Names
use hoodalpha.Prelude.{if◌then◌else◌, find, Bool, true, false, Option, none, some, List, [], ◌++◌}
use hoodalpha.Prelude.Int.{ℤ}
use hoodalpha.Go.Text.{Text, codes, text_eq, decimal}
use hoodalpha.Go.Error.{unauthorized, is, ok, err}
use hoodalpha.Go.Exec.{Exec}
use hoodalpha.Go.Time.{zero_time}
use hoodalpha.Domain.User.{TelegramId, TelegramUser}
use hoodalpha.Domain.Audit.{outcome_ok, outcome_rejected, outcome_failed}
use hoodalpha.App.Onboarding.{
  Identity, telegram_actor_id, authorize, record_command, record_rate_limited,
}
use hoodalpha.Telegram.Parse.{parse_command}
use hoodalpha.Telegram.Limiter.{allow}
use hoodalpha.Telegram.Table.{Request, Handler, answers, lists_commands, Command, Router, has_name}
use hoodalpha.Telegram.Help.{handle_help}

-- `Update`
pub record Update : Type 0 where
  pub telegram_id : TelegramId
  pub chat_id : ℤ
  pub username : Text
  pub first_name : Text
  pub last_name : Text
  pub language_code : Text
  pub is_bot : Bool
  pub text : Text

-- `Replier`
abbrev pub Replier : Type 0 → Type 0
Replier S = ℤ → Text → Exec S Unit

-- The identity that an update claims.
abbrev pub sender : Update → TelegramUser
sender u = record {
  telegram_id = u.telegram_id;
  user_id = [];
  username = u.username;
  first_name = u.first_name;
  last_name = u.last_name;
  language_code = u.language_code;
  chat_id = u.chat_id;
  created_at = zero_time;
  updated_at = zero_time;
  last_seen_at = zero_time;
}

-- A call of a handler of a router.
unfoldable pub run_handler : {S : Type 0} → Router S → Handler S → Request → Exec S Text
unfolding handle_help
run_handler router (answers f) req = f req
run_handler router lists_commands req = handle_help router req

module _ {S : Type 0} (router : Router S) (reply : Option (Replier S)) where
  open router use {onboarding, rate_limit, rate_window}

  -- `Router.send`: a failure is logged.
  unfoldable pub send : ℤ → Text → S → S
  send chat text s = elim reply [
    | none ↦ s
    | some r ↦ if text_eq text [] then s else (r chat text s).1
  ]

  -- The end of `Dispatch`: the handler, its record and the reply.
  unfoldable pub run_command : Update → Text → Command S → Request → S → S
  unfolding send run_handler
  run_command u name c req s =
      let (result, s') = run_handler router c.handler req s in
      elim result [
        | err _ ↦
            send u.chat_id (codes "That command failed. The error has been logged.")
              (record_command onboarding u.telegram_id name outcome_failed s').1
        | ok text ↦
            send u.chat_id text (record_command onboarding u.telegram_id name outcome_ok s').1
      ]

  -- `Dispatch` for a sender within the limit.
  unfoldable pub dispatch_command : Update → Text → List Text → Identity → S → S
  unfolding run_command send
  dispatch_command u name args identity s = elim (find (has_name name) router.commands) [
    | none ↦
        send u.chat_id (codes "Unknown command. Try /help.")
          (record_command onboarding u.telegram_id name outcome_rejected s).1
    | some c ↦
        run_command u name c
          (record { identity = identity; chat_id = u.chat_id; args = args; raw = u.text }) s
  ]

  -- `Dispatch` for a sender who was let in.
  unfoldable pub dispatch_limited : Update → Text → List Text → Identity → S → S
  unfolding dispatch_command send telegram_actor_id
  dispatch_limited u name args identity s = elim router.limiter [
    | none ↦ dispatch_command u name args identity s
    | some allow ↦
        let (permit, s') = allow (telegram_actor_id u.telegram_id) rate_limit rate_window s in
        elim permit.allowed [
          | true ↦ dispatch_command u name args identity s'
          | false ↦
              send u.chat_id
                (codes "Slow down — more than "
                  ++ decimal rate_limit
                  ++ codes " commands per "
                  ++ router.window_text
                  ++ codes ".")
                (record_rate_limited onboarding u.telegram_id name s').1
        ]
  ]

  -- `Dispatch`
  unfoldable pub dispatch : Update → S → S
  unfolding dispatch_limited send
  dispatch u s =
      let (name, args) = parse_command u.text in
      if text_eq name []
      then s
      else if u.is_bot
      then s
      else let (admitted, s') = authorize onboarding (sender u) s in
        elim admitted [
          | err e ↦ elim (is e unauthorized) [
            | true ↦ send u.chat_id (codes "Not authorized.") s'
            | false ↦ send u.chat_id (codes "Something went wrong. Try again shortly.") s'
          ]
          | ok identity ↦ dispatch_limited u name args identity s'
        ]
