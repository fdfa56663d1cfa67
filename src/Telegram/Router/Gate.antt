-- ===== src/Telegram/Router/Gate.antt =====
-- What stands before every handler.
use hoodalpha.Prelude.{ℕ, ◌≡◌, ap, true, false, Option, some, List, [], ◌++◌, arith}
use hoodalpha.Go.Text.{Text, codes, text_eq, decimal}
use hoodalpha.Go.Error.{ok}
use hoodalpha.Go.Time.{Duration}
use hoodalpha.Domain.User.{is_valid_id, allows}
use hoodalpha.App.Ports.{record_audit}
use hoodalpha.App.Onboarding.{
  Identity, telegram_actor_id, not_in_allowlist, authorize, record_rate_limited, authorize_stranger,
}
use hoodalpha.Telegram.Parse.{parse_command}
use hoodalpha.Telegram.Limiter.{Permit}
use hoodalpha.Telegram.Router.{Update, Replier, sender, send, dispatch_limited, dispatch}
use hoodalpha.Telegram.Table.{Router}

module _ {S : Type 0} (router : Router S) (reply : Option (Replier S)) (u : Update) (s : S) where
  -- A command from a human with a positive identifier that is not on the allowlist does one thing before
  -- the terse reply: the refusal is audited. No store of users, no limiter and no handler is called, and the reply does not
  -- depend on the command.
  pub dispatch_stranger :
      text_eq (parse_command u.text).0 [] ≡ false
      → u.is_bot ≡ false
      → is_valid_id u.telegram_id ≡ true
      → allows router.onboarding.allowlist u.telegram_id ≡ false
      → dispatch router reply u s
        ≡ send router reply u.chat_id
            (codes "Not authorized.")
            (record_audit router.onboarding.audit (not_in_allowlist u.telegram_id) s).1
  unfolding dispatch
  dispatch_stranger command human valid stranger =
      let refused = authorize_stranger router.onboarding (sender u) s valid stranger in
      rw (command, human, ap (λ x. x.0) refused, ap (λ x. x.1) refused)

  throttled :
      (permit_for : Text → ℕ → Duration → S → Permit × S) (name : Text) (args : List Text)
      (identity : Identity) (s' : S)
      → router.limiter ≡ some permit_for
      → (permit_for
          (telegram_actor_id u.telegram_id)
          router.rate_limit
          router.rate_window
          s').0.allowed
        ≡ false
      → dispatch_limited router reply u name args identity s'
        ≡ send router reply u.chat_id
            (codes "Slow down — more than "
              ++ decimal router.rate_limit
              ++ codes " commands per "
              ++ router.window_text
              ++ codes ".")
            (record_rate_limited router.onboarding u.telegram_id name
              (permit_for
                (telegram_actor_id u.telegram_id)
                router.rate_limit
                router.rate_window
                s').1).1
  unfolding dispatch_limited
  throttled permit_for name args identity s' limited refused = ground arith

  -- A command of a human who is let in, but past the limit, never reaches a handler: behind the
  -- authorization and the count, the refusal is audited and answered.
  pub dispatch_throttled :
      (permit_for : Text → ℕ → Duration → S → Permit × S) (identity : Identity) (s' : S)
      → text_eq (parse_command u.text).0 [] ≡ false
      → u.is_bot ≡ false
      → authorize router.onboarding (sender u) s ≡ (ok identity, s')
      → router.limiter ≡ some permit_for
      → (permit_for
          (telegram_actor_id u.telegram_id)
          router.rate_limit
          router.rate_window
          s').0.allowed
        ≡ false
      → dispatch router reply u s
        ≡ send router reply u.chat_id
            (codes "Slow down — more than "
              ++ decimal router.rate_limit
              ++ codes " commands per "
              ++ router.window_text
              ++ codes ".")
            (record_rate_limited router.onboarding u.telegram_id
              (parse_command u.text).0
              (permit_for
                (telegram_actor_id u.telegram_id)
                router.rate_limit
                router.rate_window
                s').1).1
  unfolding dispatch
  dispatch_throttled permit_for identity s' command human admitted limited refused =
      rw (command, human, ap (λ x. x.0) admitted, ap (λ x. x.1) admitted)
        (throttled permit_for (parse_command u.text).0 (parse_command u.text).1 identity s' limited
          refused)
