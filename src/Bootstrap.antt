-- ===== src/Bootstrap.antt =====
-- internal/bootstrap/bootstrap.go: what a process opens at its start and closes at its end.
pub mod Closing
pub mod RedisClient
pub mod Connecting
use hoodalpha.Prelude.{Bool, true, false, List, [], ◌∷◌}
use hoodalpha.Go.Error.{wrap, joined, Result, ok, err}
use hoodalpha.Go.Exec.{Exec, pure, wrapping, ◌>>=◌, ◌>>◌}
use hoodalpha.Go.Text.{codes}

-- The three connections that `Close` releases.
pub data Handle : Type 0 where
  postgres redis chain : Handle

-- `options`
pub record Wanted : Type 0 where
  pub postgres_wanted : Bool
  pub redis_wanted : Bool
  pub chain_wanted : Bool
  pub migrate : Bool

-- `Option`
pub data Switch : Type 0 where
  with_postgres with_redis with_chain with_migrations : Switch

abbrev pub nothing_wanted : Wanted
nothing_wanted = record {
  postgres_wanted = false;
  redis_wanted = false;
  chain_wanted = false;
  migrate = false;
}

-- `WithPostgres`, `WithRedis`, `WithChain` and `WithMigrations`
abbrev pub switch : Switch → Wanted → Wanted
switch with_postgres o = record o { postgres_wanted = true }
switch with_redis o = record o { redis_wanted = true }
switch with_chain o = record o { chain_wanted = true }
switch with_migrations o = record o { migrate = true; postgres_wanted = true }

-- The loop of `New` over its options.
unfoldable pub switched : List Switch → Wanted → Wanted
switched [] o = o
switched (x ∷ xs) o = switched xs (switch x o)

-- `postgres.Migrate`, the three functions that connect, and the three that close.
pub record Infrastructure (S : Type 0) : Type 0 where
  pub migrations : Exec S Unit
  pub open_handle : Handle → Exec S Unit
  pub close_handle : Handle → Exec S Unit

-- `errors.Join` of two results.
abbrev pub join_results : Result Unit → Result Unit → Result Unit
join_results (ok _) r = r
join_results (err e) (ok _) = err e
join_results (err e) (err f) = err (joined e f)

module _ {S : Type 0} (infra : Infrastructure S) where
  -- The loop of `closeAll`, over the newest handle first: an error does not stop it.
  unfoldable pub close_all : List Handle → Exec S Unit
  close_all [] s = (ok tt, s)
  close_all (h ∷ handles) s =
      let (r, s1) = infra.close_handle h s in
      let (rest, s2) = close_all handles s1 in (join_results r rest, s2)

  -- One part of `New`, where it is wanted: on an error everything opened so far is closed. The handles are
  -- the closers, the newest first.
  unfoldable pub open_next : Bool → Handle → List Handle → Exec S (List Handle)
  open_next false h handles s = (ok handles, s)
  open_next true h handles s =
      let (r, s1) = infra.open_handle h s in
      elim r [ ok _ ↦ (ok (h ∷ handles), s1) | err e ↦ (err e, (close_all handles s1).1) ]

  abbrev pub migrate_first : Bool → Exec S Unit
  migrate_first false = pure tt
  migrate_first true = wrapping (wrap (codes "migrate")) infra.migrations

  -- `New`
  unfoldable pub new_deps : Wanted → Exec S (List Handle)
  new_deps o = do
    migrate_first o.migrate
    one ← open_next o.postgres_wanted postgres []
    two ← open_next o.redis_wanted redis one
    open_next o.chain_wanted chain two
