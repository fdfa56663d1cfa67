-- ===== src/Postgres/Migrate.antt =====
-- internal/persistence/postgres/migrate.go: the migrations. goose and database/sql are parameters.
pub mod Keeping
use hoodalpha.Prelude.{ℕ}
use hoodalpha.Prelude.Int.{ℤ}
use hoodalpha.Go.Text.{Text, codes}
use hoodalpha.Go.Error.{wrap, Result, ok, err}
use hoodalpha.Go.Exec.{Exec, pure, fail, wrapping, attempt, ◌>>=◌, ◌>>◌}
use hoodalpha.Config.{PostgresConfig}

-- The calls of database/sql and goose: `sql.Open` and `Close` of its handle, `SetDialect`, and the
-- five commands on the embedded migrations, of which `DownTo` has the version it goes down to.
pub record Goose (S : Type 0) : Type 0 where
  pub sql_open : Text → Exec S Unit
  pub sql_close : Exec S Unit
  pub set_dialect : Exec S Unit
  pub up : Exec S Unit
  pub down : Exec S Unit
  pub down_to : ℕ → Exec S Unit
  pub status : Exec S Unit
  pub db_version : Exec S ℤ

module _ {S : Type 0} (goose : Goose S) where
  abbrev pub behind_dialect : Result Unit → Exec S Unit
  behind_dialect (ok _) = pure tt
  behind_dialect (err e) = attempt goose.sql_close >> fail (wrap (codes "set goose dialect") e)

  -- `NewMigrator`: the handle is closed again where the dialect is refused.
  unfoldable pub new_migrator : PostgresConfig → Exec S Unit
  new_migrator c = do
    wrapping (wrap (codes "open migration connection")) (goose.sql_open c.url)
    set ← attempt goose.set_dialect
    behind_dialect set

  -- `Migrator.Reset`
  abbrev pub reset_schema : Exec S Unit
  reset_schema = goose.down_to 0

  -- A body and the deferred `Close`, whose error is dropped.
  abbrev pub then_close : {A : Type 0} → Exec S A → Exec S A
  then_close body s = let (r, s1) = body s in let (_, s2) = goose.sql_close s1 in (r, s2)

  unfoldable pub with_migrator : {A : Type 0} → PostgresConfig → Exec S A → Exec S A
  with_migrator c body = new_migrator c >> then_close body

  -- `Migrate`
  unfoldable pub migrate_up : PostgresConfig → Exec S Unit
  unfolding with_migrator
  migrate_up c = with_migrator c goose.up
