-- ===== src/Postgres/Migrate/Keeping.antt =====
-- What the migrator leaves as it is.
use hoodalpha.Prelude.{◌≡◌, refl, ◌∙◌}
use hoodalpha.Go.Text.{Text, codes}
use hoodalpha.Go.Error.{wrap, Result, ok, err}
use hoodalpha.Go.Exec.{Exec, wrapping, attempt, Keeps, bind-Keeps}
use hoodalpha.Postgres.Migrate.{Goose, behind_dialect, new_migrator, then_close, with_migrator}
use hoodalpha.Config.{PostgresConfig}

-- What the libraries do: opening and closing a handle and choosing a dialect leave the database as it is.
pub record IsReading {S V : Type 0} (goose : Goose S) (schema : S → V) : Type 0 where
  pub opens : (url : Text) (s : S) → schema (goose.sql_open url s).1 ≡ schema s
  pub closes : (s : S) → schema (goose.sql_close s).1 ≡ schema s
  pub chooses : (s : S) → schema (goose.set_dialect s).1 ≡ schema s

module _ {S V : Type 0} (goose : Goose S) (schema : S → V) (reading : IsReading goose schema) where
  open reading use {opens, closes, chooses}

  behind_dialect-Keeps : (r : Result Unit) → Keeps schema (behind_dialect goose r)
  behind_dialect-Keeps (ok _) s = refl
  behind_dialect-Keeps (err e) s = closes s

  new_migrator-Keeps : (c : PostgresConfig) → Keeps schema (new_migrator goose c)
  unfolding new_migrator
  new_migrator-Keeps c =
      bind-Keeps schema (wrapping (wrap (codes "open migration connection")) (goose.sql_open c.url))
        _ (opens c.url)
        (λ _.
          bind-Keeps schema (attempt goose.set_dialect) (behind_dialect goose) chooses
            behind_dialect-Keeps)

  pub with_migrator-Keeps :
      {A : Type 0} (c : PostgresConfig) (body : Exec S A)
      → Keeps schema body
      → Keeps schema (with_migrator goose c body)
  unfolding with_migrator
  with_migrator-Keeps {A} c body keeps =
      bind-Keeps schema (new_migrator goose c) (λ _. then_close goose body) (new_migrator-Keeps c)
        (λ _ s. closes (body s).1 ∙ keeps s)
