-- ===== src/Telegram/Bot.antt =====
-- internal/telegram/bot.go and notifier.go: the transport. The Bot API is a parameter. A message is
-- sent as the bytes of its text in UTF-8.
use hoodalpha.Prelude.{
  ltb, if◌then◌else◌, Bool-cases, length, take, length-append, length-take, ℕ, zero, suc, ◌+◌, ◌/◌,
  ◌%◌, ◌≤◌, ◌≡◌, refl, ap, inl, inr, Bool, Option, none, some, List, [], ◌∷◌, ◌++◌, map, arith,
}
use hoodalpha.Prelude.Int.{ℤ}
use hoodalpha.Go.Text.{Text, codes, text_eq}
use hoodalpha.Go.Error.{Error, new, wrap}
use hoodalpha.Go.Exec.{Exec, pure, wrapping, attempt, modify, fail_if, ◌>>◌}
use hoodalpha.Telegram.Router.{dispatch}
use hoodalpha.Telegram.Table.{Router, sorted_commands}

-- The bytes of a code point.
unfoldable pub utf8_code : ℕ → List ℕ
utf8_code c =
    if ltb c 0x80
    then c ∷ []
    else if ltb c 0x800
    then (0xc0 + c / 64) ∷ (0x80 + c % 64) ∷ []
    else if ltb c 0x10000
    then (0xe0 + c / 4096) ∷ (0x80 + c / 64 % 64) ∷ (0x80 + c % 64) ∷ []
    else (0xf0 + c / 262144) ∷ (0x80 + c / 4096 % 64) ∷ (0x80 + c / 64 % 64) ∷ (0x80 + c % 64) ∷ []

-- The bytes of a Go string.
unfoldable pub utf8 : Text → List ℕ
unfolding utf8_code
utf8 [] = []
utf8 (c ∷ s) = utf8_code c ++ utf8 s

abbrev pub max_len : ℕ
max_len = 4000

abbrev pub suffix : List ℕ
suffix = utf8 (codes "\n… truncated")

-- The cut of `Send`, on bytes.
unfoldable pub shortened : List ℕ → List ℕ
shortened bytes = if ltb max_len (length bytes) then take max_len bytes ++ suffix else bytes

-- The message of an update, and its sender; either may be missing.
pub record Message : Type 0 where
  pub from : Option (ℤ × Text × Text × Text × Text × Bool)
  pub chat_id : ℤ
  pub text : Text

module _ {S : Type 0} (send_message : ℤ → List ℕ → Exec S Unit) where
  -- `Bot.Send` and `Notifier.Send`
  unfoldable pub send_text : ℤ → Text → Exec S Unit
  send_text chat text =
      if text_eq text []
      then pure tt
      else wrapping (wrap (codes "send telegram message"))
          (send_message chat (shortened (utf8 text)))

  -- `handleUpdate`: what has no message or no sender is dropped.
  unfoldable pub handle_update : Router S → Option Message → S → S
  handle_update router none s = s
  handle_update router (some m) s = elim m.from [
    | none ↦ s
    | some (id, username, first_name, last_name, language_code, is_bot) ↦
        dispatch router (some send_text)
          (record {
            telegram_id = id;
            chat_id = m.chat_id;
            username = username;
            first_name = first_name;
            last_name = last_name;
            language_code = language_code;
            is_bot = is_bot;
            text = m.text;
          })
          s
  ]

-- The command menu that `registerCommands` publishes.
unfoldable pub command_menu : {S : Type 0} → Router S → List (Text × Text)
command_menu router = map (λ c. (c.name, c.description)) (sorted_commands router)

-- The Bot API behind a token: `tgbot.New`, `SetMyCommands`, `GetMe`, and `Start`, which hands every
-- update to its handler until the context is done.
pub record BotApi (S : Type 0) : Type 0 where
  pub connect : Text → Exec S Unit
  pub set_commands : List (Text × Text) → Exec S Unit
  pub get_me : Exec S Unit
  pub send_message : ℤ → List ℕ → Exec S Unit
  pub poll : (Option Message → S → S) → S → S

module _ {S : Type 0} (api : BotApi S) where
  abbrev token_required : Error
  token_required = new (codes "telegram bot token is required")

  -- `NewBot`
  unfoldable pub new_bot : Text → Exec S Unit
  new_bot token = do
    fail_if (text_eq token []) token_required
    wrapping (wrap (codes "create telegram bot")) (api.connect token)

  -- `NewNotifier`: its `Send`, with no command loop.
  unfoldable pub new_notifier : Text → Exec S (ℤ → Text → Exec S Unit)
  new_notifier token = do
    fail_if (text_eq token []) token_required
    wrapping (wrap (codes "create telegram notifier")) (api.connect token)
    pure (send_text api.send_message)

  -- `Bot.Run`: a menu that is not taken stops nothing.
  unfoldable pub run_bot : Router S → Exec S Unit
  run_bot router = do
    attempt (api.set_commands (command_menu router))
    wrapping (wrap (codes "telegram getMe")) api.get_me
    modify (api.poll (handle_update api.send_message router))

suffix-length : length suffix ≡ 14
unfolding utf8 codes
suffix-length = refl

take_append : (n : ℕ) (xs tail : List ℕ) → n ≤ length xs → take n (take n xs ++ tail) ≡ take n xs
take_append zero xs tail h = refl
take_append (suc n) [] tail h = ground arith
take_append (suc n) (x ∷ xs) tail h = ap (λ t. x ∷ t) (take_append n xs tail (omega arith))

cut_bounds :
    (n : ℕ) (bytes tail : List ℕ)
    → (length (if ltb n (length bytes) then take n bytes ++ tail else bytes) ≤ n + length tail)
      × (take n (if ltb n (length bytes) then take n bytes ++ tail else bytes) ≡ take n bytes)
cut_bounds n bytes tail = elim (Bool-cases (ltb n (length bytes))) [
  | inl long ↦ rw long (
    omega (arith, length-append (take n bytes) tail, length-take n bytes),
    take_append n bytes tail (ground arith),
  )
  | inr short ↦ rw short (ground arith, refl)
]

-- What `Send` hands over has at most 4000 bytes and the 14 of its suffix, so it is within the 4096
-- characters that Telegram takes; and its first 4000 bytes are those of the message.
shortened_bounds :
    (bytes : List ℕ)
    → (length (shortened bytes) ≤ 4000 + length suffix)
      × (take 4000 (shortened bytes) ≡ take 4000 bytes)
unfolding shortened
shortened_bounds bytes = cut_bounds 4000 bytes suffix
