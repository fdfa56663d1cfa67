-- ===== src/Telegram/Help.antt =====
-- `/help` of internal/telegram/commands.go, and the padding of its columns.
use hoodalpha.Prelude.{length, replicate, ℕ, ◌-◌, String, List, [], ◌∷◌, ◌++◌}
use hoodalpha.Go.Text.{Text, codes}
use hoodalpha.Go.Exec.{Exec, pure}
use hoodalpha.Telegram.Table.{Request, Command, Router, sorted_commands}

abbrev pub line : String → Text
line t = codes t ++ 10 ∷ []

-- A text on the left of a field of a width.
unfoldable pub pad_right : ℕ → Text → Text
pad_right n s = s ++ replicate (n - length s) 32

unfoldable pub help_lines : {S : Type 0} → List (Command S) → Text
unfolding pad_right
help_lines [] = []
help_lines (c ∷ cs) = codes "  /" ++ pad_right 9 c.name ++ 32 ∷ c.description ++ 10 ∷ help_lines cs

-- `handleHelp`
unfoldable pub handle_help : {S : Type 0} → Router S → Request → Exec S Text
unfolding help_lines
handle_help r req = pure (line "Commands:" ++ 10 ∷ help_lines (sorted_commands r))
