-- ===== src/Examples/Heads.antt =====
-- The subscriber to the heads of the chain and the progress that is kept of them, on small inputs.
use hoodalpha.Prelude.{replicate, ℕ, ◌*◌, ◌^◌, ◌≡◌, refl, false, some, [], ◌++◌, arith}
use hoodalpha.Prelude.Int.{pos, scale, to_int64, to_word64}
use hoodalpha.Go.Text.{codes}
use hoodalpha.Go.Error.{Error, new, ok, err}
use hoodalpha.Go.Time.{second}
use hoodalpha.Domain.Chain.{BlockRef}
use hoodalpha.Postgres.Tables.{Db}
use hoodalpha.App.ChainSync.{ChainProbe}
use hoodalpha.Chain.Records.{RawHeader}
use hoodalpha.Chain.Subscriber.{
  SubscriberOptions, starting, closed, pausing, State, Opening, check_reported, open_session,
  set_connected, at_phase, opened, on_header, next_backoff, initial, open_step, receive, disconnect,
  start_timer, wake, RunSteps, rest, then_step,
}
use hoodalpha.Chain.Subscriber.Invariant.{IsHonest, run-IsHonest}
use hoodalpha.Chain.Subscriber.Backoff.{min, run_delay}

abbrev settings : SubscriberOptions
settings = record {
  ws_url = codes "ws://node";
  expected_chain = 4663;
  dial_timeout = pos second;
  reconnect_base = pos 1000;
  reconnect_max = pos 3000;
}

abbrev welcome : Opening
welcome = record { dialled = ok tt; chain_id = ok (pos 4663); subscribed = ok tt }

abbrev header : RawHeader
header = record { number = 7; hash = codes "0x7"; parent_hash = codes "0x6"; time = 0 }

abbrev streaming_now : State
streaming_now = opened settings welcome (pos 1000) (initial settings)

abbrev after_header : State
after_header = on_header (pos 1000) header (pos 9) streaming_now

connected_steps : RunSteps settings (initial settings) after_header
unfolding initial opened open_session check_reported
connected_steps =
    then_step (initial settings) streaming_now after_header
      (then_step (initial settings) (initial settings) streaming_now (rest (initial settings))
        (open_step (initial settings) (pos 1000) welcome refl refl))
      (receive streaming_now (pos 1000) header (pos 9) refl)

run-IsHonest_example : IsHonest after_header
run-IsHonest_example = run-IsHonest settings after_header connected_steps

-- A dial that fails, and the delay behind it.
abbrev failed : Opening
failed = record welcome { dialled = err (new []) }

abbrev ended_now : State
ended_now = opened settings failed (pos 1000) (initial settings)

abbrev closed_now : State
closed_now = at_phase (closed (pos 1000)) (set_connected false ended_now)

abbrev second_start : State
second_start =
    at_phase (starting (next_backoff settings (pos 1000)))
      (at_phase (pausing (pos 1000)) closed_now)

failed_steps : RunSteps settings (initial settings) second_start
unfolding initial opened open_session
failed_steps =
    then_step _ _ _
      (then_step _ _ _
        (then_step _ _ _
          (then_step _ _ _ (rest (initial settings))
            (open_step (initial settings) (pos 1000) failed refl refl))
          (disconnect ended_now (pos 1000) refl))
        (start_timer closed_now (pos 1000) refl refl))
      (wake (at_phase (pausing (pos 1000)) closed_now) (pos 1000) refl)

run_delay_example : pos 2000 ≡ pos (min 3000 (1000 * 2 ^ 1))
unfolding next_backoff to_int64 to_word64 scale failed_steps
run_delay_example =
    run_delay settings second_start (pos 2000) 1000 3000 failed_steps refl refl refl (omega arith)
      (omega arith)

-- A session whose context is done.
abbrev cancelled_now : State
cancelled_now = record streaming_now { ctx = some (new []) }

abbrev block : ℕ → BlockRef
block n = record {
  number = n;
  hash = codes "0x" ++ replicate 64 b'a';
  parent_hash = [];
  time = pos 0;
}

abbrev probe : ChainProbe Db
probe = record { chain_id = λ db. (ok 4663, db); latest_block = λ db. (ok (block 7), db) }
