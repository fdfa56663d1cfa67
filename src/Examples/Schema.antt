-- ===== src/Examples/Schema.antt =====
-- A reset of the schema in production.
use hoodalpha.Prelude.{ℕ, ◌+◌, ◌-◌, ◌≡◌, refl, false, [], ◌∷◌}
use hoodalpha.Prelude.Int.{pos}
use hoodalpha.Go.Text.{codes, text_eq, lower, to_lower}
use hoodalpha.Go.Error.{ok, is_ok}
use hoodalpha.Go.Exec.{pure, modify}
use hoodalpha.Config.{is_production}
use hoodalpha.Postgres.Migrate.{Goose}
use hoodalpha.Postgres.Migrate.Keeping.{IsReading}
use hoodalpha.Cmd.Migrate.{command_of, run_migrate}
use hoodalpha.Cmd.Migrate.Schema.{run_migrate-Keeps}
use hoodalpha.Examples.Processes.{bot_env, bot_loaded}

-- The state is the version of the schema.
abbrev pub versions : Goose ℕ
versions = record {
  sql_open = λ _. pure tt;
  sql_close = pure tt;
  set_dialect = pure tt;
  up = modify (λ n. n + 1);
  down = modify (λ n. n - 1);
  down_to = λ to n. (ok tt, to);
  status = pure tt;
  db_version = λ n. (ok (pos n), n);
}

pub versions-IsReading : {V : Type 0} (view : ℕ → V) → IsReading versions view
versions-IsReading view = record { opens = λ url s. refl; closes = λ s. refl; chooses = λ s. refl }

run_migrate-Keeps_example :
    ((run_migrate versions bot_env (codes "reset" ∷ []) 4).1 ≡ 4)
    × (is_ok (run_migrate versions bot_env (codes "reset" ∷ []) 4).0 ≡ false)
unfolding bot_loaded is_production command_of text_eq codes to_lower lower
run_migrate-Keeps_example =
    run_migrate-Keeps versions (λ n. n) (versions-IsReading (λ n. n)) bot_env bot_loaded.0
      (codes "reset") [] 4 bot_loaded.1 refl
