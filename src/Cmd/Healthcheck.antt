-- ===== src/Cmd/Healthcheck.antt =====
-- cmd/healthcheck/main.go: the probe of a container.
use hoodalpha.Prelude.{◌==◌, if◌then◌else◌, ℕ, ◌≡◌, refl, Bool, true, false, []}
use hoodalpha.Go.Text.{Text, codes, text_eq}
use hoodalpha.Go.Error.{Result, ok, err}
use hoodalpha.Domain.Health.{HealthStatus, up, degraded, down}
use hoodalpha.App.Health.{check}
use hoodalpha.Http.{ready_handler, serve_route, serve}
use hoodalpha.Http.Requests.{readyz, HttpRequest, Server}
use hoodalpha.Config.Env.{Environment, getenv}

-- Where the probe asks.
unfoldable pub healthcheck_url : Environment → Text
unfolding getenv
healthcheck_url env =
    let url = getenv env (codes "HEALTHCHECK_URL") in
    if text_eq url [] then codes "http://127.0.0.1:8080/readyz" else url

-- The exit code for the status of the answer, or an error of the request.
unfoldable pub healthcheck_exit : Result ℕ → ℕ
healthcheck_exit (err _) = 1
healthcheck_exit (ok status) = if status == 200 then 0 else 1

abbrev pub is_down : HealthStatus → Bool
is_down down = true
is_down _ = false

-- A container whose probe asks the readiness route is healthy exactly while the health check does not report the
-- process as down; a degraded one is healthy.
pub healthcheck_exactly :
    {S : Type 0} (server : Server S) (r : HttpRequest) (s : S)
    → r.route ≡ readyz
    → healthcheck_exit (ok (serve server r s).0.status)
      ≡ (if is_down (check server.health s).0.status then 1 else 0)
unfolding healthcheck_exit serve serve_route ready_handler
healthcheck_exactly server r s route = rw route (by_status (check server.health s).0.status)
  where
    by_status :
        (h : HealthStatus)
        → ◌≡◌ {A = ℕ}
            (if elim h [ down ↦ 503 | _ ↦ 200 ] == 200 then 0 else 1)
            (if is_down h then 1 else 0)
    by_status up = refl
    by_status degraded = refl
    by_status down = refl
