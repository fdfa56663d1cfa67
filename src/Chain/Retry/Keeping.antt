-- ===== src/Chain/Retry/Keeping.antt =====
-- What `retryPolicy.Do` leaves as it is.
use hoodalpha.Prelude.{ℕ, zero, suc, ◌≡◌, refl, ◌∙◌, ◌⊎◌, inl, inr, Option, none, some, [], arith}
use hoodalpha.Prelude.Int.{pos_part}
use hoodalpha.Go.Error.{Error, new, Result, err}
use hoodalpha.Go.Exec.{Exec, attempt, Keeps}
use hoodalpha.Go.Time.{Duration}
use hoodalpha.Chain.Retry.{Runtime, RetryPolicy, base_backoff, wait, round, retry_loop, retry_do}

module _ {S V : Type 0} (view : S → V) (run : Runtime S)
    (pauses : (d : Duration) (s : S) → view (run.pause d s).1 ≡ view s) {A : Type 0}
    (p : RetryPolicy) (fn : Exec S A) (keeps : Keeps view fn) where
  -- The state of a round, however it ended.
  abbrev state_of : (Result A × S) ⊎ (Error × S) → S
  state_of (inl (_, s)) = s
  state_of (inr (_, s)) = s

  round-keeps :
      (attempt : ℕ) (last : Option Error) (s : S)
      → view (state_of (round run p fn attempt last s)) ≡ view s
  unfolding round
  round-keeps attempt last s =
      ground (arith, keeps s, pauses (wait (base_backoff p) attempt) (fn s).1)

  -- The view of an answer, where there is one.
  abbrev Shown : V → Option (Result A × S) → Type 0
  Shown v none = Unit
  Shown v (some (_, t)) = view t ≡ v

  retry_loop-keeps :
      (fuel attempt : ℕ) (last : Option Error) (v : V) (s : S)
      → view s ≡ v
      → Shown v (retry_loop run p fn fuel attempt last s)
  unfolding retry_loop
  retry_loop-keeps zero attempt last v s e = tt
  retry_loop-keeps (suc fuel) attempt last v s e =
      by_round (round run p fn attempt last s) (round-keeps attempt last s ∙ e)
        (λ f t. retry_loop-keeps fuel (suc attempt) (some f) v t)
    where
      by_round :
          (r : (Result A × S) ⊎ (Error × S))
          → view (state_of r) ≡ v
          → ((f : Error) (t : S)
              → view t ≡ v
              → Shown v (retry_loop run p fn fuel (suc attempt) (some f) t))
          → Shown v (elim r [
            | inl answer ↦ some answer
            | inr (f, t) ↦ retry_loop run p fn fuel (suc attempt) (some f) t
          ])
      by_round (inl (_, t)) same_view later = same_view
      by_round (inr (f, t)) same_view later = later f t same_view

  abbrev or_nothing : S → Option (Result A × S) → Result A × S
  or_nothing s o = elim o [ none ↦ (err (new []), s) | some answer ↦ answer ]

  -- `Do` keeps what its calls and its pauses keep.
  pub retry_do-Keeps : Keeps view (retry_do run p fn)
  unfolding retry_do
  retry_do-Keeps s =
      by_answer (retry_loop run p fn (suc (pos_part p.max_retries)) 0 none s)
        (retry_loop-keeps (suc (pos_part p.max_retries)) 0 none (view s) s refl)
    where
      by_answer : (o : Option (Result A × S)) → Shown (view s) o → view (or_nothing s o).1 ≡ view s
      by_answer none h = refl
      by_answer (some (_, t)) h = h
