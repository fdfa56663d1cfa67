-- ===== src/Http/Running.antt =====
-- `Run` of internal/httpapi/server.go. net/http is a parameter.
use hoodalpha.Prelude.{Option, none, some}
use hoodalpha.Go.Text.{codes}
use hoodalpha.Go.Error.{Error, wrap}
use hoodalpha.Go.Exec.{Exec, pure, fail, wrapping}
use hoodalpha.Go.Time.{Duration}

-- What the `select` of `Run` sees first: that the context is done, or the end of `ListenAndServe`, whose
-- error is none where it is `ErrServerClosed`.
pub data FirstEvent : Type 0 where
  context_done : FirstEvent
  listener_ended : Option Error → FirstEvent

-- net/http: serving up to the first event, and `Shutdown` with a limit on its time.
pub record HttpServer (S : Type 0) : Type 0 where
  pub serve_to : S → FirstEvent × S
  pub shutdown : Duration → Exec S Unit

module _ {S : Type 0} (server : HttpServer S) (timeout : Duration) where
  abbrev pub behind_event : FirstEvent → Exec S Unit
  behind_event context_done = wrapping (wrap (codes "http shutdown")) (server.shutdown timeout)
  behind_event (listener_ended none) = pure tt
  behind_event (listener_ended (some e)) = fail (wrap (codes "http server") e)

  -- `Server.Run`
  unfoldable pub run_http : Exec S Unit
  run_http s = let (first, s1) = server.serve_to s in behind_event first s1
