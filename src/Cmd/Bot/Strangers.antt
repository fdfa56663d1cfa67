-- ===== src/Cmd/Bot/Strangers.antt =====
-- Whom the bot of a configuration answers.
use hoodalpha.Prelude.{◌≡◌, ◌∙◌, subst, true, false, Option, some, []}
use hoodalpha.Go.Text.{codes, text_eq}
use hoodalpha.Go.Error.{new, ok, err}
use hoodalpha.Go.Exec.{Exec}
use hoodalpha.Domain.User.{is_valid_id, has_id, allows}
use hoodalpha.App.Ports.{record_audit}
use hoodalpha.App.Onboarding.{Onboarding, not_in_allowlist}
use hoodalpha.Telegram.Parse.{parse_command}
use hoodalpha.Telegram.Router.{Update, Replier, send, dispatch}
use hoodalpha.Telegram.Router.Gate.{dispatch_stranger}
use hoodalpha.Telegram.Register.{new_router, command, register-onboarding}
use hoodalpha.Config.{Config, enabled}
use hoodalpha.Config.Env.{Environment}
use hoodalpha.Config.Load.{load}
use hoodalpha.Config.Allowed.{load-allows}
use hoodalpha.Bootstrap.{Infrastructure}
use hoodalpha.Cmd.{Ports, Libraries, new_onboarding, run_process}
use hoodalpha.Cmd.Bot.{token_set, router_options, command_deps, bot_router, run_bot_process}
use hoodalpha.Telegram.Bot.{BotApi}
use hoodalpha.Telegram.Table.{Router}

module _ {S : Type 0} (libraries : Libraries) (ports : Ports S) (c : Config) (router : Router S)
    (built : bot_router libraries ports c ≡ some router) where
  bot_onboarding : router.onboarding ≡ new_onboarding ports c
  unfolding bot_router new_router
  bot_onboarding =
      register-onboarding (command_deps libraries ports c)
        (new_router libraries.duration_text (router_options libraries ports c)) router built

  -- The bot of a loaded configuration does two things for a command of a human whom the configuration does not list:
  -- it audits the refusal, and it sends the one terse reply, whatever the command was.
  pub bot_refuses :
      (env : Environment) (reply : Option (Replier S)) (u : Update) (s : S)
      → load env ≡ ok c
      → text_eq (parse_command u.text).0 [] ≡ false
      → u.is_bot ≡ false
      → is_valid_id u.telegram_id ≡ true
      → has_id u.telegram_id c.telegram.allowed_user_ids ≡ false
      → dispatch router reply u s
        ≡ send router reply u.chat_id
            (codes "Not authorized.")
            (record_audit (some ports.audit) (not_in_allowlist u.telegram_id) s).1
  bot_refuses env reply u s loaded command human valid unlisted =
      let stranger : allows router.onboarding.allowlist u.telegram_id ≡ false =
        rw bot_onboarding (load-allows env c u.telegram_id loaded ∙ unlisted) in
      let refused = dispatch_stranger router reply u s command human valid stranger in
      subst
        (λ (o : Onboarding S).
          dispatch router reply u s
          ≡ send router reply u.chat_id (codes "Not authorized.")
              (record_audit o.audit (not_in_allowlist u.telegram_id) s).1)
        bot_onboarding refused

-- Without the token of a bot, `run` ends before anything is opened.
no_token_no_bot :
    {S : Type 0} (libraries : Libraries) (ports : Ports S) (api : BotApi S) (env : Environment)
    (infra : Infrastructure S) (close_queue : Exec S Unit) (c : Config) (s : S)
    → load env ≡ ok c
    → enabled c.telegram ≡ false
    → run_bot_process libraries ports api env infra close_queue s
      ≡ (err (new (codes "TELEGRAM_BOT_TOKEN is not set")), s)
unfolding run_bot_process run_process token_set
no_token_no_bot libraries ports api env infra close_queue c s loaded off = rw (loaded, off)
