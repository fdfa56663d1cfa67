-- ===== src/Telegram/Register.antt =====
-- `NewRouter` of internal/telegram/router.go and `Register` of internal/telegram/commands.go.
use hoodalpha.Prelude.{
  if◌then◌else◌, Bool-cases, any, ℕ, String, ◌≡◌, refl, subst, inl, inr, Option, none, some, List,
  [], ◌∷◌, ◌++◌,
}
use hoodalpha.Prelude.Int.{ℤ, pos, pos_part, leb_ℤ}
use hoodalpha.Go.Text.{Text, codes, text_eq, trim_prefix, to_lower}
use hoodalpha.Go.Time.{Duration, minute}
use hoodalpha.App.Onboarding.{Onboarding, Identity, record_command}
use hoodalpha.InitData.Query.{text_le}
use hoodalpha.Telegram.Limiter.{Permit}
use hoodalpha.Telegram.Router.{Update, Replier, run_handler, send, run_command, dispatch_command}
use hoodalpha.Telegram.Commands.{
  CommandDeps, handle_start, handle_status, handle_health, handle_connect,
}
use hoodalpha.Telegram.Bot.{command_menu}
use hoodalpha.Telegram.Help.{line, pad_right, help_lines, handle_help}
use hoodalpha.Telegram.Table.{
  Handler, answers, lists_commands, Command, Router, has_name, handle, insert_command,
  sort_commands, sorted_commands,
}
use hoodalpha.Domain.Audit.{outcome_ok}

-- `RouterOptions`
pub record RouterOptions (S : Type 0) : Type 0 where
  pub onboarding : Onboarding S
  pub limiter : Option (Text → ℕ → Duration → S → Permit × S)
  pub rate_limit : ℤ
  pub rate_window : Duration

-- `NewRouter`, with `String` of a duration: a limit or a window that is not positive has a default.
unfoldable pub new_router : {S : Type 0} → (Duration → Text) → RouterOptions S → Router S
new_router duration_text o =
    let window = if leb_ℤ o.rate_window (pos 0) then pos minute else o.rate_window in
    record {
      onboarding = o.onboarding;
      limiter = o.limiter;
      commands = [];
      rate_limit = if leb_ℤ o.rate_limit (pos 0) then 20 else pos_part o.rate_limit;
      rate_window = window;
      window_text = duration_text window;
    }

abbrev pub command : {S : Type 0} → String → String → Handler S → Command S
command name description handler = record {
  name = codes name;
  description = codes description;
  handler = handler;
}

infixl 5 ◌then_handle◌
abbrev pub ◌then_handle◌ : {S : Type 0} → Option (Router S) → Command S → Option (Router S)
none then_handle c = none
some r then_handle c = handle c r

-- `Register`; none where `Handle` panics.
unfoldable pub register : {S : Type 0} → CommandDeps S → Router S → Option (Router S)
unfolding handle
register d r =
    some r
    then_handle command "start" "Register and show what this bot can do" (answers (handle_start d))
    then_handle command "status" "Bot state, linked wallets and trading status"
        (answers (handle_status d))
    then_handle command "health" "Dependency health (database, cache, chain)"
        (answers (handle_health d))
    then_handle command "connect" "Link a wallet" (answers (handle_connect d))
    then_handle command "help" "List available commands" lists_commands

-- On a new router, `Register` never panics, and the menu has its five commands in the order of their names.
register_menu :
    {S : Type 0} (duration_text : Duration → Text) (o : RouterOptions S) (d : CommandDeps S)
    → (r : Router S) × (register d (new_router duration_text o) ≡ some r)
      × (command_menu r
          ≡ (codes "connect", codes "Link a wallet")
            ∷ (codes "health", codes "Dependency health (database, cache, chain)")
            ∷ (codes "help", codes "List available commands")
            ∷ (codes "start", codes "Register and show what this bot can do")
            ∷ (codes "status", codes "Bot state, linked wallets and trading status")
            ∷ [])
unfolding register new_router handle command_menu sorted_commands sort_commands insert_command
    text_le codes text_eq trim_prefix to_lower
register_menu duration_text o d = (_, refl, refl)

-- What `/help` prints of the five commands, in the order of their names.
abbrev pub help_text : Text
help_text =
    line "Commands:"
    ++ line ""
    ++ line "  /connect   Link a wallet"
    ++ line "  /health    Dependency health (database, cache, chain)"
    ++ line "  /help      List available commands"
    ++ line "  /start     Register and show what this bot can do"
    ++ line "  /status    Bot state, linked wallets and trading status"

-- On a new router, `Register` never panics, and with the router that it leaves the command `help` of a sender
-- within the limit is answered with the list of the five commands, itself included, and is recorded as carried out.
pub help_lists_commands :
    {S : Type 0} (duration_text : Duration → Text) (o : RouterOptions S) (d : CommandDeps S)
    (reply : Option (Replier S)) (u : Update) (args : List Text) (identity : Identity) (s : S)
    → (r : Router S) × (register d (new_router duration_text o) ≡ some r)
      × (dispatch_command r reply u (codes "help") args identity s
          ≡ send r reply u.chat_id help_text
              (record_command o.onboarding u.telegram_id (codes "help") outcome_ok s).1)
unfolding register new_router handle sorted_commands sort_commands insert_command text_le codes
    text_eq trim_prefix to_lower dispatch_command run_command run_handler handle_help help_lines
    pad_right
help_lists_commands duration_text o d reply u args identity s = (_, refl, refl)

-- A registration leaves the use case of the router as it is.
abbrev OverOnboarding : {S : Type 0} → Onboarding S → Option (Router S) → Type 0
OverOnboarding onboarding none = Unit
OverOnboarding onboarding (some r) = r.onboarding ≡ onboarding

then_handle-Over :
    {S : Type 0} (onboarding : Onboarding S) (o : Option (Router S)) (c : Command S)
    → OverOnboarding onboarding o
    → OverOnboarding onboarding (o then_handle c)
unfolding handle
then_handle-Over onboarding none c h = tt
then_handle-Over onboarding (some r) c h =
    elim (Bool-cases (any (has_name (trim_prefix (codes "/") (to_lower c.name))) r.commands)) [
      | inl taken ↦ rw taken tt
      | inr free ↦ rw free h
    ]

pub register-onboarding :
    {S : Type 0} (d : CommandDeps S) (r r' : Router S)
    → register d r ≡ some r'
    → r'.onboarding ≡ r.onboarding
unfolding register
register-onboarding d r r' h = subst (OverOnboarding r.onboarding) h (
    then_handle-Over r.onboarding _ _ (
      then_handle-Over r.onboarding _ _ (
        then_handle-Over r.onboarding _ _
          (then_handle-Over r.onboarding _ _ (then_handle-Over r.onboarding (some r) _ refl)))))
