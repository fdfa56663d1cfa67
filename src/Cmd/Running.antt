-- ===== src/Cmd/Running.antt =====
-- What a command leaves open.
use hoodalpha.Prelude.{◌≡◌, refl, ◌∙◌, List}
use hoodalpha.Go.Error.{Result, ok, err}
use hoodalpha.Go.Exec.{Exec}
use hoodalpha.Config.{Config}
use hoodalpha.Config.Env.{Environment}
use hoodalpha.Config.Load.{load}
use hoodalpha.Bootstrap.{Handle, Infrastructure, new_deps}
use hoodalpha.Bootstrap.Closing.{opened_by, IsTracked, close_all-live, Left, new_deps-live}
use hoodalpha.Cmd.{all_connections, behind_open, with_deps, behind_check, behind_load, run_process}

module _ {S : Type 0} (infra : Infrastructure S) (live : S → List Handle)
    (tracked : IsTracked infra live) (env : Environment) (close_queue : Exec S Unit)
    (queue_apart : (s : S) → live (close_queue s).1 ≡ live s) where
  behind_open-live :
      (body : Exec S Unit) (rest : List Handle) (opened : Result (List Handle) × S)
      → ((t : S) → live (body t).1 ≡ live t)
      → Left infra live tracked (opened_by all_connections) rest opened
      → live (behind_open env infra close_queue body opened).1 ≡ rest
  behind_open-live body rest (err e, s1) keeps closed = closed
  behind_open-live body rest (ok handles, s1) keeps (same_handles, open_now) = rw same_handles (
      close_all-live infra live tracked (opened_by all_connections) rest (close_queue (body s1).1).1
        (queue_apart (body s1).1 ∙ (keeps s1 ∙ open_now)))

  with_deps-live :
      (body : Exec S Unit) (s : S)
      → ((t : S) → live (body t).1 ≡ live t)
      → live (with_deps env infra close_queue body s).1 ≡ live s
  unfolding with_deps
  with_deps-live body s keeps =
      behind_open-live body (live s) (new_deps infra all_connections s) keeps
        (new_deps-live infra live tracked all_connections s)

  behind_check-live :
      (body : Exec S Unit) (r : Result Unit) (s : S)
      → ((t : S) → live (body t).1 ≡ live t)
      → live (behind_check env infra close_queue body r s).1 ≡ live s
  behind_check-live body (err e) s keeps = refl
  behind_check-live body (ok _) s keeps = with_deps-live body s keeps

  behind_load-live :
      (precheck : Config → Result Unit) (body : Config → Exec S Unit) (r : Result Config) (s : S)
      → ((c : Config) (t : S) → live (body c t).1 ≡ live t)
      → live (behind_load env infra close_queue precheck body r s).1 ≡ live s
  behind_load-live precheck body (err e) s keeps = refl
  behind_load-live precheck body (ok c) s keeps =
      behind_check-live (body c) (precheck c) s (keeps c)

  -- However a command ends (a configuration that is refused, a connection that fails, an error or the
  -- end of its body), exactly the connections are open that were open before it, provided that its body
  -- opens and closes none.
  run_process-live :
      (precheck : Config → Result Unit) (body : Config → Exec S Unit) (s : S)
      → ((c : Config) (t : S) → live (body c t).1 ≡ live t)
      → live (run_process env infra close_queue precheck body s).1 ≡ live s
  unfolding run_process
  run_process-live precheck body s keeps = behind_load-live precheck body (load env) s keeps
