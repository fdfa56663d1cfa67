-- ===== src/Telegram/Limiter/Counts.antt =====
-- The count of the rate limiter.
use hoodalpha.Prelude.{leb, ℕ, ◌+◌, ◌≡◌, ◌≢◌, true, none, some, ◌++◌, arith}
use hoodalpha.Prelude.Int.{◌+ℤ◌, ◌≤ℤ◌}
use hoodalpha.Go.Text.{Text, text_eq_refl, codes}
use hoodalpha.Go.Error.{Error}
use hoodalpha.Go.Time.{Time, Duration}
use hoodalpha.InitData.Guard.{Redis, request, is_live}
use hoodalpha.Telegram.Limiter.{count_of, incr, WindowOf, allow}

module _ (window_of : WindowOf) (prefix identity : Text) (window : Duration) where
  abbrev pub bucket : Time → Text
  bucket now = prefix ++ codes ":" ++ identity ++ codes ":" ++ window_of now window

  -- With a positive limit and a Redis that answers, an action that the counter has at n is allowed if
  -- and only if n + 1 is at most the limit, and until the server drops the key the counter then
  -- stands at n + 1.
  allow_counts :
      (limit n : ℕ) (r : Redis) (t : Time)
      → limit ≢ 0
      → r.faults r.requests ≡ none
      → count_of r.server_now (bucket r.now) r.entries ≡ n
      → t ≤ℤ r.server_now +ℤ r.kept_for window
      → ((allow window_of prefix identity limit window r).0.allowed ≡ leb (n + 1) limit)
        × (count_of t (bucket r.now) (allow window_of prefix identity limit window r).1.entries
            ≡ n + 1)
  unfolding allow incr request count_of is_live
  allow_counts limit n r t positive answers counted soon =
      ground (arith, text_eq_refl (bucket r.now))

  -- With a positive limit, a Redis that does not answer lets every action pass and counts nothing.
  pub allow_fails_open :
      (limit : ℕ) (r : Redis) (e : Error)
      → limit ≢ 0
      → r.faults r.requests ≡ some e
      → ((allow window_of prefix identity limit window r).0.allowed ≡ true)
        × ((allow window_of prefix identity limit window r).1.entries ≡ r.entries)
  unfolding allow incr request
  allow_fails_open limit r e positive fails = ground arith
