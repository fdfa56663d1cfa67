-- ===== src/Telegram/Table.antt =====
-- The commands of a `Router` of internal/telegram/router.go.
use hoodalpha.Prelude.{if◌then◌else◌, any, ℕ, zero, suc, Bool, Option, none, some, List, [], ◌∷◌}
use hoodalpha.Prelude.Int.{ℤ}
use hoodalpha.Go.Text.{Text, codes, text_eq, trim_prefix, to_lower}
use hoodalpha.Go.Exec.{Exec}
use hoodalpha.Go.Time.{Duration}
use hoodalpha.App.Onboarding.{Onboarding, Identity}
use hoodalpha.InitData.Query.{text_le}
use hoodalpha.Telegram.Limiter.{Permit}

-- `Request`
pub record Request : Type 0 where
  pub identity : Identity
  pub chat_id : ℤ
  pub args : List Text
  pub raw : Text

-- `Request.Arg`
unfoldable pub arg : List Text → ℕ → Text
arg [] n = []
arg (a ∷ args) zero = a
arg (a ∷ args) (suc n) = arg args n

-- A handler: a function of the request, or the closure of `handleHelp`, which prints the commands of the
-- router that it belongs to.
pub data Handler (S : Type 0) : Type 0 where
  answers : (Request → Exec S Text) → Handler S
  lists_commands : Handler S

-- `Command`
pub record Command (S : Type 0) : Type 0 where
  pub name : Text
  pub description : Text
  pub handler : Handler S

-- `Router`: the commands by name, and the limiter with the window as text.
pub record Router (S : Type 0) : Type 0 where
  pub onboarding : Onboarding S
  pub limiter : Option (Text → ℕ → Duration → S → Permit × S)
  pub commands : List (Command S)
  pub rate_limit : ℕ
  pub rate_window : Duration
  pub window_text : Text

abbrev pub has_name : {S : Type 0} → Text → Command S → Bool
has_name name c = text_eq c.name name

-- `Router.Handle`: none where the source panics on a name that is taken.
unfoldable pub handle : {S : Type 0} → Command S → Router S → Option (Router S)
handle c r =
    let name = trim_prefix (codes "/") (to_lower c.name) in
    if any (has_name name) r.commands
    then none
    else some (record r { commands = record c { name = name } ∷ r.commands })

unfoldable pub insert_command : {S : Type 0} → Command S → List (Command S) → List (Command S)
unfolding text_le
insert_command c [] = c ∷ []
insert_command c (d ∷ ds) =
    let rest = insert_command c ds in if text_le c.name d.name then c ∷ d ∷ ds else d ∷ rest

unfoldable pub sort_commands : {S : Type 0} → List (Command S) → List (Command S)
unfolding insert_command
sort_commands [] = []
sort_commands (c ∷ cs) = insert_command c (sort_commands cs)

-- `Router.Commands`
unfoldable pub sorted_commands : {S : Type 0} → Router S → List (Command S)
unfolding sort_commands insert_command
sorted_commands r = sort_commands r.commands
