-- ===== src/Cmd/Migrate.antt =====
-- `run` of cmd/migrate/main.go. A command ends with the version that it prints, if it prints one.
pub mod Schema
use hoodalpha.Prelude.{if◌then◌else◌, Bool, true, false, Option, none, some, List, [], ◌∷◌, ◌++◌}
use hoodalpha.Prelude.Int.{ℤ}
use hoodalpha.Go.Text.{Text, codes, text_eq}
use hoodalpha.Go.Error.{new, Result, ok, err}
use hoodalpha.Go.Exec.{Exec, pure, fail, ◌>>=◌, ◌>>◌}
use hoodalpha.Postgres.Migrate.{Goose, reset_schema, with_migrator}
use hoodalpha.Config.{Config, is_production}
use hoodalpha.Config.Env.{Environment}
use hoodalpha.Config.Load.{load}
use hoodalpha.Domain.Address.{quote}

-- The command line behind the name of the program.
pub data MigrateCommand : Type 0 where
  go_up go_down go_reset show_status show_version : MigrateCommand
  other_command : Text → MigrateCommand

-- The cases of the `switch`.
unfoldable pub command_of : Text → MigrateCommand
command_of cmd =
    if text_eq cmd (codes "up")
    then go_up
    else if text_eq cmd (codes "down")
    then go_down
    else if text_eq cmd (codes "reset")
    then go_reset
    else if text_eq cmd (codes "status")
    then show_status
    else if text_eq cmd (codes "version")
    then show_version
    else other_command cmd

module _ {S : Type 0} (goose : Goose S) where
  -- The version behind a change, which is logged.
  abbrev logged_version : Exec S (Option ℤ)
  logged_version = do v ← goose.db_version; pure none

  abbrev pub reset_unless : Bool → Exec S (Option ℤ)
  reset_unless true = fail (new (codes "refusing to reset a production database"))
  reset_unless false = do reset_schema goose; pure none

  -- The branches of the `switch`.
  unfoldable pub execute : Config → MigrateCommand → Exec S (Option ℤ)
  execute c go_up = goose.up >> logged_version
  execute c go_down = goose.down >> logged_version
  execute c go_reset = reset_unless (is_production c)
  execute c show_status = do goose.status; pure none
  execute c show_version = do v ← goose.db_version; pure (some v)
  execute c (other_command cmd) = fail (new (codes "unknown command " ++ quote cmd))

  -- Behind `Load`.
  abbrev pub migrate_loaded : Text → Result Config → Exec S (Option ℤ)
  migrate_loaded cmd (err e) = fail e
  migrate_loaded cmd (ok c) = with_migrator goose c.postgres (execute c (command_of cmd))

  -- `run`, on the arguments behind the name of the program.
  unfoldable pub run_migrate : Environment → List Text → Exec S (Option ℤ)
  unfolding command_of execute with_migrator
  run_migrate env [] = fail (new (codes "usage: migrate <up|down|reset|status|version>"))
  run_migrate env (cmd ∷ _) = migrate_loaded cmd (load env)
