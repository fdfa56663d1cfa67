-- ===== src/Chain/Subscriber/Session.antt =====
-- When `session` gets as far as its loop.
use hoodalpha.Prelude.{◌==◌, ℕ, ◌^◌, ◌<◌, ◌≡◌, Bool, false, ◌&&◌, ◌||◌, arith}
use hoodalpha.Prelude.Int.{ℤ, pos, negsuc}
use hoodalpha.Go.Error.{Result, ok, err, is_ok}
use hoodalpha.Go.Time.{Duration}
use hoodalpha.Chain.Subscriber.{
  SubscriberOptions, State, Opening, check_reported, open_session, opened,
}

-- The answer is the number of the expected network.
abbrev pub reports : ℕ → Result ℤ → Bool
reports expected (ok (pos n)) = n == expected
reports expected (ok (negsuc n)) = false
reports expected (err e) = false

check_reported_exactly :
    (expected : ℕ) (answer : Result ℤ)
    → expected < 2 ^ 64
    → is_ok (check_reported expected answer) ≡ (expected == 0 || reports expected answer)
unfolding check_reported
check_reported_exactly expected (ok (pos n)) h = ground arith
check_reported_exactly expected (ok (negsuc n)) h = ground arith
check_reported_exactly expected (err e) h = ground arith

-- A session streams exactly if the dial and the subscription succeed and, where a network is
-- expected, the node reports that network; then the subscriber reports a connection, and otherwise
-- its report is as before.
opened_exactly :
    (o : SubscriberOptions) (a : Opening) (b : Duration) (s : State)
    → o.expected_chain < 2 ^ 64
    → (opened o a b s).connected ≡ (
        s.connected
        || is_ok a.dialled
          && (o.expected_chain == 0 || reports o.expected_chain a.chain_id)
          && is_ok a.subscribed)
unfolding opened open_session
opened_exactly o a b s h = ground (arith, check_reported_exactly o.expected_chain a.chain_id h)
