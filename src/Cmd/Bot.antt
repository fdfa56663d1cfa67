-- ===== src/Cmd/Bot.antt =====
-- `run` of cmd/bot/main.go.
pub mod Strangers
use hoodalpha.Prelude.{if◌then◌else◌, Option, none, some}
use hoodalpha.Go.Text.{codes}
use hoodalpha.Go.Error.{new, Result, ok, err}
use hoodalpha.Go.Exec.{Exec, fail, ◌>>=◌, ◌>>◌}
use hoodalpha.Telegram.Commands.{CommandDeps}
use hoodalpha.Telegram.Register.{RouterOptions, new_router, register}
use hoodalpha.Telegram.Bot.{BotApi, new_bot, run_bot}
use hoodalpha.Config.{Config, enabled}
use hoodalpha.Config.Env.{Environment}
use hoodalpha.Bootstrap.{Infrastructure}
use hoodalpha.Cmd.{
  Ports, Libraries, new_wallet_service, new_onboarding, command_health, unless_canceled,
  run_process,
}
use hoodalpha.Telegram.Table.{Router}

-- The test before anything is opened.
unfoldable pub token_set : Config → Result Unit
token_set c =
    if enabled c.telegram then ok tt else err (new (codes "TELEGRAM_BOT_TOKEN is not set"))

module _ {S : Type 0} (libraries : Libraries) (ports : Ports S) (c : Config) where
  abbrev pub router_options : RouterOptions S
  router_options = record {
    onboarding = new_onboarding ports c;
    limiter = some (ports.allow (codes "telegram"));
    rate_limit = c.telegram.rate_limit;
    rate_window = c.telegram.rate_window;
  }

  abbrev pub command_deps : CommandDeps S
  command_deps = record {
    health = some (command_health ports c libraries none);
    wallets = some (new_wallet_service ports c);
    chain_id = c.chain.chain_id;
    mini_app_url = c.telegram.miniapp_url;
    fixed_1 = libraries.fixed_1;
  }

  -- The router of the bot with its commands; none where a registration panics.
  unfoldable pub bot_router : Option (Router S)
  bot_router = register command_deps (new_router libraries.duration_text router_options)

module _ {S : Type 0} (libraries : Libraries) (ports : Ports S) (api : BotApi S) where
  -- The body of `run`. The case without a router is that of a panic, which ends the process.
  unfoldable pub bot_body : Config → Exec S Unit
  bot_body c = elim (bot_router libraries ports c) [
    | none ↦ fail (new (codes "telegram: duplicate command"))
    | some router ↦ do
      new_bot api c.telegram.bot_token
      λ s. let (r, s') = run_bot api router s in (unless_canceled r, s')
  ]

  -- `run`
  unfoldable pub run_bot_process : Environment → Infrastructure S → Exec S Unit → Exec S Unit
  unfolding bot_body
  run_bot_process env infra close_queue = run_process env infra close_queue token_set bot_body
