-- ===== src/Chain/Subscriber/Backoff.antt =====
-- The delays of `Run` between its attempts, its end, and the network that a session reads.
use hoodalpha.Prelude.{
  leb, if◌then◌else◌, ℕ, zero, suc, ◌*◌, ◌^◌, ◌<◌, ◌≡◌, ap, ◌∙◌, Bool, true, false, Option, none,
  some, arith,
}
use hoodalpha.Prelude.Int.{pos, scale, to_int64, to_word64}
use hoodalpha.Go.Time.{Duration}
use hoodalpha.Chain.Subscriber.{
  SubscriberOptions, Phase, starting, streaming, ended, closed, pausing, handing, returned, State,
  Opening, opened, on_header, next_backoff, initial, RunStep, cancel, give_up, open_step, receive,
  hand, leave, lose, disconnect, stop, start_timer, stop_timer, wake, RunSteps, rest, then_step,
}

-- The delay after a number of attempts that ended.
unfoldable pub delay : SubscriberOptions → ℕ → Duration
delay o zero = o.reconnect_base
delay o (suc n) = next_backoff o (delay o n)

abbrev pub min : ℕ → ℕ → ℕ
min a b = if leb a b then a else b

next_exactly :
    (o : SubscriberOptions) (m d : ℕ)
    → o.reconnect_max ≡ pos m
    → m < 2 ^ 62
    → d < 2 ^ 62
    → next_backoff o (pos d) ≡ pos (min m (2 * d))
unfolding next_backoff to_int64 to_word64 scale
next_exactly o m d e h k = ground arith

min_double : (m d e : ℕ) → e ≡ 2 * d → min m (2 * min m d) ≡ min m e
min_double m d e h = ground arith

times_two : (b t : ℕ) → b * (2 * t) ≡ 2 * (b * t)
times_two b t = ground arith

times_double : (b k : ℕ) → b * 2 ^ suc k ≡ 2 * (b * 2 ^ k)
times_double b k = let e : 2 ^ suc k ≡ 2 * 2 ^ k = ground arith in rw e (times_two b (2 ^ k))

-- The delay doubles with each attempt until it reaches the longest one, and stays there: after the attempt
-- with a number it is the first delay times that power of two, or the longest delay if that is less.
pub delay_exactly :
    (o : SubscriberOptions) (b m n : ℕ)
    → o.reconnect_base ≡ pos b
    → o.reconnect_max ≡ pos m
    → b < 2 ^ 62
    → m < 2 ^ 62
    → delay o (suc n) ≡ pos (min m (b * 2 ^ suc n))
unfolding delay
delay_exactly o b m zero eb em hb hm =
    ap (next_backoff o) eb ∙ next_exactly o m b em hm hb ∙ ground arith
delay_exactly o b m (suc n) eb em hb hm =
    ap (next_backoff o) (delay_exactly o b m n eb em hb hm)
    ∙ next_exactly o m (min m (b * 2 ^ suc n)) em hm (ground arith)
    ∙ ap pos (min_double m (b * 2 ^ suc n) (b * 2 ^ suc (suc n)) (times_double b (suc n)))

-- The delay that a phase carries.
abbrev pub delay_of : Phase → Option Duration
delay_of (starting b) = some b
delay_of (streaming b) = some b
delay_of (ended b) = some b
delay_of (closed b) = some b
delay_of (pausing b) = some b
delay_of (handing b _) = some b
delay_of (returned _) = none

abbrev pub one_more : Bool → ℕ → ℕ
one_more true n = suc n
one_more false n = n

-- A first delay that is doubled a number of times and cut at the longest one; it is cut only once it has
-- been doubled.
abbrev pub doubled : ℕ → ℕ → ℕ → ℕ
doubled b m zero = b
doubled b m (suc n) = min m (b * 2 ^ suc n)

module _ (o : SubscriberOptions) where
  -- Whether a step is the end of a pause between two attempts.
  abbrev pub ends_pause : (s t : State) → RunStep o s t → Bool
  ends_pause _ _ (wake s b p) = true
  ends_pause _ _ _ = false

  -- The number of pauses that have ended.
  abbrev pub pauses_in : (s t : State) → RunSteps o s t → ℕ
  pauses_in _ _ (rest s) = 0
  pauses_in _ _ (then_step s t u before step) =
      one_more (ends_pause t u step) (pauses_in s t before)

  -- The delay is the one after a number of pauses, unless `Run` has returned.
  abbrev pub IsDelayed : ℕ → Phase → Type 0
  IsDelayed n p = (b : Duration) → delay_of p ≡ some b → b ≡ delay o n

  opened-IsDelayed :
      (n : ℕ) (s : State) (b : Duration) (a : Opening)
      → s.phase ≡ starting b
      → IsDelayed n s.phase
      → IsDelayed n (opened o a b s).phase
  unfolding opened
  opened-IsDelayed n s b a p h = λ d e. h d (ground arith)

  step-IsDelayed :
      (n : ℕ) (s t : State) (step : RunStep o s t)
      → IsDelayed n s.phase
      → IsDelayed (one_more (ends_pause s t step) n) t.phase
  unfolding on_header delay
  step-IsDelayed n _ _ (cancel s e c) h = h
  step-IsDelayed n _ _ (give_up s b e p c) h = λ d x. ground arith
  step-IsDelayed n _ _ (open_step s b a p c) h = opened-IsDelayed n s b a p h
  step-IsDelayed n _ _ (receive s b header at p) h = λ d x. h d (ap delay_of p ∙ x)
  step-IsDelayed n _ _ (hand s b ref p) h = λ d x. h d (ap delay_of p ∙ x)
  step-IsDelayed n _ _ (leave s b e p c) h = λ d x. h d (ap delay_of p ∙ x)
  step-IsDelayed n _ _ (lose s b f p) h = λ d x. h d (ap delay_of p ∙ x)
  step-IsDelayed n _ _ (disconnect s b p) h = λ d x. h d (ap delay_of p ∙ x)
  step-IsDelayed n _ _ (stop s b e p c) h = λ d x. ground arith
  step-IsDelayed n _ _ (start_timer s b p c) h = λ d x. h d (ap delay_of p ∙ x)
  step-IsDelayed n _ _ (stop_timer s b e p c) h = λ d x. ground arith
  step-IsDelayed n _ _ (wake s b p) h = λ d x.
      let e : d ≡ next_backoff o b = ground arith in e ∙ ap (next_backoff o) (h b (ap delay_of p))

  steps-IsDelayed :
      (s t : State) (steps : RunSteps o s t)
      → IsDelayed 0 s.phase
      → IsDelayed (pauses_in s t steps) t.phase
  steps-IsDelayed _ _ (rest s) h = h
  steps-IsDelayed _ _ (then_step s t u before step) h =
      step-IsDelayed (pauses_in s t before) t u step (steps-IsDelayed s t before h)

  initial-IsDelayed : IsDelayed 0 (initial o).phase
  unfolding initial delay
  initial-IsDelayed d x = ground arith

  -- The delay that `Run` has before its first pause is the first delay, and behind `n` pauses it is the first
  -- delay doubled `n` times, cut at the longest one, where both are below 2^62 nanoseconds.
  pub run_delay :
      (s : State) (d : Duration) (b m : ℕ) (steps : RunSteps o (initial o) s)
      → delay_of s.phase ≡ some d
      → o.reconnect_base ≡ pos b
      → o.reconnect_max ≡ pos m
      → b < 2 ^ 62
      → m < 2 ^ 62
      → d ≡ pos (doubled b m (pauses_in (initial o) s steps))
  unfolding delay
  run_delay s d b m steps e eb em hb hm =
      by_count (pauses_in (initial o) s steps)
        (steps-IsDelayed (initial o) s steps initial-IsDelayed d e)
    where
      by_count : (n : ℕ) → d ≡ delay o n → d ≡ pos (doubled b m n)
      by_count zero h = h ∙ eb
      by_count (suc n) h = h ∙ delay_exactly o b m n eb em hb hm
