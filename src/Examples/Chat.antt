-- ===== src/Examples/Chat.antt =====
-- Messages to the bot.
use hoodalpha.Prelude.{replicate, ℕ, ◌≡◌, refl, inl, false, none, some, [], ◌∷◌, ◌++◌}
use hoodalpha.Prelude.Int.{ℤ, pos}
use hoodalpha.Go.Text.{
  Text, codes, text_eq, is_space, trim_space, fields, has_prefix, trim_prefix, before, lower,
  to_lower, is_hex_digit,
}
use hoodalpha.Go.Error.{ok}
use hoodalpha.Go.Exec.{pure}
use hoodalpha.Go.Time.{minute}
use hoodalpha.Domain.User.{is_valid_id, new_allowlist, allows}
use hoodalpha.App.Ports.{record_audit}
use hoodalpha.App.Onboarding.{Identity, not_in_allowlist, admit, authorize}
use hoodalpha.Telegram.Parse.{parse_command}
use hoodalpha.Telegram.Secret.{is_hex, is_key_shaped, looks_like_secret, looks_like_secret_word}
use hoodalpha.Telegram.Router.{Update, sender, send, dispatch}
use hoodalpha.Telegram.Router.Gate.{dispatch_stranger}
use hoodalpha.Telegram.Commands.{CommandDeps, warning, handle_connect}
use hoodalpha.Telegram.Commands.Connect.{pasted_key_not_stored}
use hoodalpha.System.{World, wallet_service}
use hoodalpha.Examples.Rules.{limits}
use hoodalpha.Examples.Store.{pg, world}
use hoodalpha.Examples.Signed.{desk}
use hoodalpha.Telegram.Table.{Request, arg, answers, Command, Router}

abbrev key : Text
key = replicate 64 b'a'

looks_like_secret_word_example :
    looks_like_secret (codes "abandon") ≡ is_key_shaped (codes "abandon")
unfolding codes is_space
looks_like_secret_word_example =
    looks_like_secret_word (codes "abandon")
      (refl, (refl, (refl, (refl, (refl, (refl, (refl, tt)))))))

-- A router with one command, which answers with a greeting.
abbrev start : Command ℕ
start = record {
  name = codes "start";
  description = [];
  handler = answers (λ _. pure (codes "Hi"));
}

abbrev pub router : Router ℕ
router = record {
  onboarding = desk;
  limiter = some (λ _ _ _ n. (record { allowed = false; remaining = 0; failure = none }, n));
  commands = start ∷ [];
  rate_limit = 20;
  rate_window = pos minute;
  window_text = codes "1m0s";
}

abbrev pub update : ℤ → Update
update id = record {
  telegram_id = id;
  chat_id = pos 1;
  username = [];
  first_name = codes "Ann";
  last_name = [];
  language_code = [];
  is_bot = false;
  text = codes "/start";
}

dispatch_stranger_example :
    dispatch router none (update (pos 8)) 0
    ≡ send router none
        (pos 1)
        (codes "Not authorized.")
        (record_audit none (not_in_allowlist (pos 8)) 0).1
unfolding codes parse_command trim_space is_space has_prefix trim_prefix fields before to_lower
    lower text_eq is_valid_id allows new_allowlist
dispatch_stranger_example = dispatch_stranger router none (update (pos 8)) 0 refl refl refl refl

pub let_in : (identity : Identity) × (authorize desk (sender (update (pos 7))) 0 ≡ (ok identity, 1))
unfolding authorize admit is_valid_id allows new_allowlist
let_in = (_, refl)

abbrev connect : Text → Request
connect address = record {
  identity = let_in.0;
  chat_id = pos 1;
  args = address ∷ [];
  raw = codes "/connect " ++ address;
}

abbrev deps : CommandDeps World
deps = record {
  health = none;
  wallets = some (wallet_service pg 4663 limits);
  chain_id = 4663;
  mini_app_url = [];
  fixed_1 = λ _. [];
}

pasted_key_not_stored_example : handle_connect deps (connect key) world ≡ (ok warning, world)
unfolding is_hex is_hex_digit arg
pasted_key_not_stored_example =
    pasted_key_not_stored deps (connect key) world key refl refl (inl refl)
