-- ===== src/Telegram/Limiter.antt =====
-- `RateLimiter` of internal/persistence/redis/guard.go, over the keys of Redis.
pub mod Counts
use hoodalpha.Prelude.{
  leb, ◌==◌, if◌then◌else◌, find, keep, ℕ, ◌+◌, ◌-◌, Bool, true, false, not, Option, none, some,
  List, ◌∷◌, ◌++◌,
}
use hoodalpha.Prelude.Int.{◌+ℤ◌}
use hoodalpha.Go.Text.{Text, codes, text_eq}
use hoodalpha.Go.Error.{Error, wrap, ok, err}
use hoodalpha.Go.Exec.{Exec, pure, get, modify, ◌>>=◌, ◌>>◌}
use hoodalpha.Go.Time.{Time, Duration}
use hoodalpha.InitData.Guard.{Entry, Redis, request, is_live}

-- The answer of `Allow`: whether the action may run, how many remain, and an error, which may stand
-- beside a permission.
pub record Permit : Type 0 where
  pub allowed : Bool
  pub remaining : ℕ
  pub failure : Option Error

-- The count of a key that is there, 0 otherwise.
unfoldable pub count_of : Time → Text → List Entry → ℕ
unfolding is_live
count_of now key es = elim (find (is_live now key) es) [ none ↦ 0 | some e ↦ e.count ]

-- `INCR` and `EXPIRE` in one transaction: the count behind it.
unfoldable pub incr : Text → Duration → Exec Redis ℕ
unfolding request count_of is_live
incr key window = do
  request
  r ← get
  modify (λ q. record q {
    entries =
        record {
          key = key;
          count = count_of q.server_now key q.entries + 1;
          expires = q.server_now +ℤ q.kept_for window;
        }
        ∷ keep (λ e. not (text_eq e.key key)) q.entries;
  })
  pure (count_of r.server_now key r.entries + 1)

-- The number of the window that an instant is in, as text: `time.Now().Truncate(window).Unix()`
-- stays the same within a window and is another number in another.
abbrev pub WindowOf : Type 0
WindowOf = Time → Duration → Text

-- `RateLimiter.Allow`; a limit that is not positive refuses without a request.
unfoldable pub allow : WindowOf → Text → Text → ℕ → Duration → Redis → Permit × Redis
unfolding incr
allow window_of prefix identity limit window r =
    let key = prefix ++ codes ":" ++ identity ++ codes ":" ++ window_of r.now window in
    let (counted, q) = incr key window r in
    if limit == 0
    then (record { allowed = false; remaining = 0; failure = none }, r)
    else elim counted [
      | err e ↦ (
        record {
          allowed = true;
          remaining = 0;
          failure = some (wrap (codes "rate limiter unavailable") e);
        },
        q,
      )
      | ok count ↦
          (record { allowed = leb count limit; remaining = limit - count; failure = none }, q)
    ]
