-- ===== src/Chain/Retry/Bounds.antt =====
-- How often `retryPolicy.Do` calls, and how long it waits.
use hoodalpha.Prelude.{
  ltb, if◌then◌else◌, Option-cases, ℕ, zero, suc, ◌+◌, ◌*◌, ◌%◌, ◌^◌, ◌≤◌, ◌<◌, ◌≡◌, refl, ap, ◌∙◌,
  ◌⊎◌, inl, inr, true, false, Option, none, some, arith,
}
use hoodalpha.Prelude.Int.{pos, pos_part, ◌≤ℤ◌, leb_ℤ, ltb_ℤ, to_int64, to_word64}
use hoodalpha.Go.Error.{Error, joined, Result, ok, err}
use hoodalpha.Go.Exec.{Exec}
use hoodalpha.Go.Time.{Duration}
use hoodalpha.Chain.Retry.{
  Runtime, RetryPolicy, max_wait, base_backoff, wait, retryable, round, retry_loop, retry_do,
}

module _ {S A : Type 0} (run : Runtime S) (p : RetryPolicy) (fn : Exec S A) where
  open run use {ctx_err, pause}

  round-cases :
      (attempt : ℕ) (last : Option Error) (s : S)
      → ((x : Result A × S) × (round run p fn attempt last s ≡ inl x))
        ⊎ ((e : Error) × (s1 : S) × (round run p fn attempt last s ≡ inr (e, s1)))
  round-cases attempt last s = either (round run p fn attempt last s) refl
    where
      either :
          (y : (Result A × S) ⊎ (Error × S))
          → round run p fn attempt last s ≡ y
          → ((x : Result A × S) × (round run p fn attempt last s ≡ inl x))
            ⊎ ((e : Error) × (s1 : S) × (round run p fn attempt last s ≡ inr (e, s1)))
      either (inl x) h = inl (x, h)
      either (inr (e, s1)) h = inr (e, s1, h)

  -- Another round follows only while retries are left.
  round_again :
      (attempt : ℕ) (last : Option Error) (s s1 : S) (e : Error)
      → round run p fn attempt last s ≡ inr (e, s1)
      → attempt < pos_part p.max_retries
  unfolding round
  round_again attempt last s s1 e h = ground arith

  -- Two amounts of fuel that reach the last retry give the same answer.
  retry_loop_agree :
      (f g attempt : ℕ) (last : Option Error) (s : S)
      → attempt ≤ pos_part p.max_retries
      → pos_part p.max_retries < f + attempt
      → pos_part p.max_retries < g + attempt
      → (x : Result A × S) × (retry_loop run p fn f attempt last s ≡ some x)
        × (retry_loop run p fn g attempt last s ≡ some x)
  unfolding retry_loop
  retry_loop_agree zero g attempt last s h hf hg = ground arith
  retry_loop_agree (suc f) zero attempt last s h hf hg = ground arith
  retry_loop_agree (suc f) (suc g) attempt last s h hf hg = elim (round-cases attempt last s) [
    | inl (x, e) ↦ (x, ground arith, ground arith)
    | inr (e, s1, r) ↦
        let next =
          retry_loop_agree f g (suc attempt) (some e) s1 (round_again attempt last s s1 e r)
            (omega arith) (omega arith) in
        (next.0, ground arith, ground arith)
  ]

  -- The loop ends: with any fuel above the number of retries it gives an answer, and it is the answer
  -- of `Do`.
  pub retry_do_ends :
      (fuel : ℕ) (s : S)
      → pos_part p.max_retries < fuel
      → retry_loop run p fn fuel 0 none s ≡ some (retry_do run p fn s)
  unfolding retry_do
  retry_do_ends fuel s h =
      let (x, e, e') =
        retry_loop_agree fuel (suc (pos_part p.max_retries)) 0 none s (omega arith) (omega arith)
          (omega arith) in
      ground arith

  module _ (count : S → ℕ) (called : (s : S) → count (fn s).1 ≤ count s + 1)
      (paused : (d : Duration) (s : S) → count (pause d s).1 ≤ count s) where
    round_stop_count :
        (attempt : ℕ) (last : Option Error) (s : S) (x : Result A × S)
        → round run p fn attempt last s ≡ inl x
        → count x.1 ≤ count s + 1
    unfolding round
    round_stop_count attempt last s x h =
        ground (arith, called s, paused (wait (base_backoff p) attempt) (fn s).1)

    round_again_count :
        (attempt : ℕ) (last : Option Error) (s s1 : S) (e : Error)
        → round run p fn attempt last s ≡ inr (e, s1)
        → count s1 ≤ count s + 1
    unfolding round
    round_again_count attempt last s s1 e h =
        ground (arith, called s, paused (wait (base_backoff p) attempt) (fn s).1)

    retry_loop_count :
        (fuel attempt : ℕ) (last : Option Error) (s : S) (x : Result A × S)
        → retry_loop run p fn fuel attempt last s ≡ some x
        → count x.1 ≤ count s + fuel
    unfolding retry_loop
    retry_loop_count zero attempt last s x h = ground arith
    retry_loop_count (suc fuel) attempt last s x h = elim (round-cases attempt last s) [
      | inl (y, e) ↦ ground (arith, round_stop_count attempt last s y e)
      | inr (f, s1, r) ↦ ground (
        arith,
        round_again_count attempt last s s1 f r,
        retry_loop_count fuel (suc attempt) (some f) s1 x,
      )
    ]

    -- `Do` makes at most one call more than the retries allowed, by any count that one call raises by
    -- at most one and a pause does not raise.
    retry_do_calls : (s : S) → count (retry_do run p fn s).1 ≤ count s + pos_part p.max_retries + 1
    retry_do_calls s = omega (
      arith,
      retry_loop_count (suc (pos_part p.max_retries)) 0 none s (retry_do run p fn s)
          (retry_do_ends (suc (pos_part p.max_retries)) s (omega arith)),
    )

  module _ (P : A → S → Type 0) (gives : (s s1 : S) (a : A) → fn s ≡ (ok a, s1) → P a s1) where
    round_stop_ok :
        (attempt : ℕ) (last : Option Error) (s s1 : S) (a : A)
        → round run p fn attempt last s ≡ inl (ok a, s1)
        → P a s1
    unfolding round
    round_stop_ok attempt last s s1 a h = gives s s1 a (ground arith)

    retry_loop_ok :
        (fuel attempt : ℕ) (last : Option Error) (s s1 : S) (a : A)
        → retry_loop run p fn fuel attempt last s ≡ some (ok a, s1)
        → P a s1
    unfolding retry_loop
    retry_loop_ok zero attempt last s s1 a h = ground arith
    retry_loop_ok (suc fuel) attempt last s s1 a h = elim (round-cases attempt last s) [
      | inl (y, e) ↦ round_stop_ok attempt last s s1 a (ground arith)
      | inr (f, s2, r) ↦ retry_loop_ok fuel (suc attempt) (some f) s2 s1 a (ground arith)
    ]

    -- What every successful call guarantees of its value and of the state after it holds of a success of
    -- `Do`.
    pub retry_do_ok : (s s1 : S) (a : A) → retry_do run p fn s ≡ (ok a, s1) → P a s1
    retry_do_ok s s1 a h =
        retry_loop_ok (suc (pos_part p.max_retries)) 0 none s s1 a
          (retry_do_ends (suc (pos_part p.max_retries)) s (omega arith) ∙ ap some h)

pow2_pos : (n : ℕ) → 1 ≤ 2 ^ n
pow2_pos zero = omega arith
pow2_pos (suc n) = ground (arith, pow2_pos n)

le-times : (b c : ℕ) → 1 ≤ c → b ≤ b * c
le-times b zero h = ground arith
le-times b (suc c) h = ground arith

-- No delay is above five seconds.
pub wait_le : (b : Duration) (attempt : ℕ) → wait b attempt ≤ℤ pos max_wait
unfolding wait
wait_le b attempt = ground arith

to_int64_small : (n : ℕ) → n < 2 ^ 63 → to_int64 (n % 2 ^ 64) ≡ pos n
unfolding to_int64
to_int64_small n h = ground arith

-- While the shifted delay fits into an `int64`, it is waited for in full, up to five seconds.
wait_exactly :
    (b attempt : ℕ)
    → b * 2 ^ attempt < 2 ^ 63
    → wait (pos b) attempt
      ≡ pos (if ltb max_wait (b * 2 ^ attempt) then max_wait else b * 2 ^ attempt)
unfolding wait to_word64
wait_exactly b attempt h =
    let small : b % 2 ^ 64 ≡ b = omega (arith, le-times b (2 ^ attempt) (pow2_pos attempt)) in
    rw small (rw (to_int64_small (b * 2 ^ attempt) h) (ground arith))

-- A delay of 250 ms shifted by 36 is negative in an `int64`: the timer fires at once.
wait_overflow : ltb_ℤ (wait (pos 250_000_000) 36) (pos 0) ≡ true
unfolding wait to_int64 to_word64
wait_overflow = refl

module _ {S : Type 0} (run : Runtime S) {A : Type 0} (p : RetryPolicy) (fn : Exec S A) where
  -- How a round ends behind its wait.
  abbrev pub behind_wait : Error → Option Error × S → (Result A × S) ⊎ (Error × S)
  behind_wait e (some c, s2) = inl (err (joined e c), s2)
  behind_wait e (none, s2) = inr (e, s2)

  behind_failure :
      (attempt : ℕ) (last : Option Error) (s : S) (e : Error)
      → run.ctx_err s ≡ none
      → (fn s).0 ≡ err e
      → leb_ℤ p.max_retries (pos attempt) ≡ false
      → retryable run e ≡ true
      → round run p fn attempt last s
        ≡ behind_wait e (run.pause (wait (base_backoff p) attempt) (fn s).1)
  unfolding round
  behind_failure attempt last s e live failed left worth =
      elim (Option-cases (run.pause (wait (base_backoff p) attempt) (fn s).1).0) [
        | inl woken ↦ ground (arith, live, failed, left, worth, woken)
        | inr (c, done) ↦ ground (arith, live, failed, left, worth, done)
      ]

  base_backoff-set : (b : ℕ) → p.backoff ≡ pos b → 0 < b → base_backoff p ≡ pos b
  unfolding base_backoff
  base_backoff-set b policy positive = ground arith

  -- Behind a call that fails with an error worth a retry, while retries are left and the context is not done,
  -- `Do` waits exactly once before the next round, and not longer than five seconds: for the delay of the
  -- policy shifted by the number of the attempt, where that fits into 64 bits, or for five seconds if that
  -- is less. The next round starts in the state behind the wait, and a context that is done ends the wait
  -- with both errors.
  pub round_waits :
      (attempt b : ℕ) (last : Option Error) (s s1 : S) (e : Error)
      → p.backoff ≡ pos b
      → 0 < b
      → b * 2 ^ attempt < 2 ^ 63
      → run.ctx_err s ≡ none
      → fn s ≡ (err e, s1)
      → leb_ℤ p.max_retries (pos attempt) ≡ false
      → retryable run e ≡ true
      → let delay =
          if ltb 5_000_000_000 (b * 2 ^ attempt) then 5_000_000_000 else b * 2 ^ attempt in
        round run p fn attempt last s ≡ behind_wait e (run.pause (pos delay) s1)
  round_waits attempt b last s s1 e policy positive fits live failed left worth =
      behind_failure attempt last s e live (ap (λ q. q.0) failed) left worth
      ∙ ap (λ t. behind_wait e (run.pause (wait (base_backoff p) attempt) t)) (ap (λ q. q.1) failed)
      ∙ ap (λ d. behind_wait e (run.pause d s1))
          (ap (λ d. wait d attempt) (base_backoff-set b policy positive)
            ∙ wait_exactly b attempt fits)
