-- ===== src/Cmd/Migrate/Schema.antt =====
-- What the command leaves of the schema.
use hoodalpha.Prelude.{◌≡◌, refl, inl, inr, Bool, true, false, Option, List, ◌∷◌}
use hoodalpha.Prelude.Int.{ℤ}
use hoodalpha.Go.Text.{Text, codes}
use hoodalpha.Go.Error.{same, Error, new, ok, is_ok, Result-cases}
use hoodalpha.Go.Exec.{fail}
use hoodalpha.Postgres.Migrate.{Goose, new_migrator, with_migrator}
use hoodalpha.Config.{PostgresConfig, Config, is_production}
use hoodalpha.Config.Env.{Environment}
use hoodalpha.Config.Load.{load}
use hoodalpha.Cmd.Migrate.{
  MigrateCommand, go_up, go_down, go_reset, show_status, show_version, other_command, command_of,
  execute, run_migrate,
}
use hoodalpha.Postgres.Migrate.Keeping.{IsReading, with_migrator-Keeps}

-- The commands that are refused: `reset` in production, and a word that is no command.
abbrev pub is_refused : Config → MigrateCommand → Bool
is_refused c go_up = false
is_refused c go_down = false
is_refused c go_reset = is_production c
is_refused c show_status = false
is_refused c show_version = false
is_refused c (other_command _) = true

module _ {S V : Type 0} (goose : Goose S) (schema : S → V) (reading : IsReading goose schema) where
  open reading use {opens, closes, chooses}

  execute-refused :
      (c : Config) (cmd : MigrateCommand)
      → is_refused c cmd ≡ true
      → (e : Error) × (execute goose c cmd ≡ fail e)
  unfolding execute
  execute-refused c go_up h = cc
  execute-refused c go_down h = cc
  execute-refused c go_reset h =
      let e : is_production c ≡ true = h in
      (new (codes "refusing to reset a production database"), rw e refl)
  execute-refused c show_status h = cc
  execute-refused c show_version h = cc
  execute-refused c (other_command cmd) h = (_, refl)

  fails_with_migrator :
      (c : PostgresConfig) (e : Error) (s : S)
      → is_ok (with_migrator goose c (fail {A = Option ℤ} e) s).0 ≡ false
  unfolding with_migrator
  fails_with_migrator c e s = elim (Result-cases (new_migrator goose c s).0) [
    | inl (u, made) ↦ rw made refl
    | inr (f, failed) ↦ rw failed refl
  ]

  -- With a configuration that is loaded, `reset` in production and any word that is no command end with an
  -- error and leave the database as it is: neither migrates it up or down, where opening and closing a
  -- handle and choosing a dialect do not change it.
  pub run_migrate-Keeps :
      (env : Environment) (c : Config) (cmd : Text) (rest : List Text) (s : S)
      → load env ≡ ok c
      → is_refused c (command_of cmd) ≡ true
      → (schema (run_migrate goose env (cmd ∷ rest) s).1 ≡ schema s)
        × (is_ok (run_migrate goose env (cmd ∷ rest) s).0 ≡ false)
  unfolding run_migrate
  run_migrate-Keeps env c cmd rest s loaded refused =
      let (e, same) = execute-refused c (command_of cmd) refused in
      rw (loaded, same)
        (
          with_migrator-Keeps goose schema reading c.postgres (fail e) (λ t. refl) s,
          fails_with_migrator c.postgres e s,
        )
