-- ===== src/InitData/Guard.antt =====
-- internal/persistence/redis/guard.go: the replay guard and the rate limiter, over the keys of Redis.
use hoodalpha.Prelude.{
  if◌then◌else◌, any, ℕ, ◌+◌, Bool, true, false, ◌&&◌, Option, none, some, List, [], ◌∷◌, ◌++◌,
}
use hoodalpha.Prelude.Int.{◌+ℤ◌, leb_ℤ}
use hoodalpha.Go.Text.{Text, codes, text_eq}
use hoodalpha.Go.Error.{Error, wrap, ok, err}
use hoodalpha.Go.Exec.{Exec, pure, wrapping, get, modify, ◌>>=◌, ◌>>◌}
use hoodalpha.Go.Time.{Time, Duration}
use hoodalpha.InitData.Types.{ReplayGuard}

-- A key of Redis with its number and the last instant at which it is there.
pub record Entry : Type 0 where
  pub key : Text
  pub count : ℕ
  pub expires : Time

-- Redis as a process sees it: the keys, the clock of the process and the clock of the server, which need
-- not agree. A request fails where `faults` says so. `kept_for` is the span that the server is told for an
-- expiry of a call: the client rounds an expiry as it sends it.
pub record Redis : Type 0 where
  pub entries : List Entry
  pub now : Time
  pub server_now : Time
  pub kept_for : Duration → Duration
  pub faults : ℕ → Option Error
  pub requests : ℕ

-- The outcome of the next request.
unfoldable pub request : Exec Redis Unit
request r = (
  elim (r.faults r.requests) [ none ↦ ok tt | some e ↦ err e ],
  record r { requests = r.requests + 1 },
)

-- The entry of a key is there.
unfoldable pub is_live : Time → Text → Entry → Bool
is_live now key e = text_eq e.key key && leb_ℤ now e.expires

-- `SETNX` with an expiry: true where the key was not there.
unfoldable pub set_nx : Text → Duration → Exec Redis Bool
unfolding request is_live
set_nx key ttl = do
  request
  r ← get
  elim (any (is_live r.server_now key) r.entries) [
    | true ↦ pure false
    | false ↦ do
      modify (λ q. record q {
        entries =
            record { key = key; count = 1; expires = q.server_now +ℤ q.kept_for ttl } ∷ q.entries;
      })
      pure true
  ]

-- `ReplayGuard.key`
unfoldable pub guard_key : Text → Text → Text
guard_key prefix hash = prefix ++ codes ":initdata:" ++ hash

-- The default of `NewReplayGuard`.
abbrev pub new_replay_guard : Text → Text
new_replay_guard prefix = if text_eq prefix [] then codes "replay" else prefix

-- `FirstUse`
unfoldable pub first_use : Text → ReplayGuard Redis
unfolding set_nx guard_key
first_use prefix hash ttl =
    wrapping (wrap (codes "replay guard unavailable")) (set_nx (guard_key prefix hash) ttl)
