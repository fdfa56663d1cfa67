-- ===== src/Chain/Retry.antt =====
-- internal/chain/retry.go: `retryPolicy.Do` and `retryable`.
pub mod Bounds
pub mod Keeping
use hoodalpha.Prelude.{
  if◌then◌else◌, any, ℕ, zero, suc, ◌*◌, ◌%◌, ◌^◌, ◌⊎◌, inl, inr, Bool, true, false, not, ◌||◌,
  Option, none, some, List, [], ◌∷◌,
}
use hoodalpha.Prelude.Int.{ℤ, pos, negsuc, pos_part, leb_ℤ, ltb_ℤ, eqb_ℤ, to_int64, to_word64}
use hoodalpha.Go.Text.{Text, codes, contains, to_lower}
use hoodalpha.Go.Error.{
  ethereum_not_found, canceled, deadline_exceeded, Error, new, joined, is, message, Result, ok, err,
}
use hoodalpha.Go.Exec.{Exec}
use hoodalpha.Go.Time.{Duration, second}

-- What a call runs in: `ctx.Err()`; the `select` between `ctx.Done()` and a timer, which gives the
-- error of the context if that was done first; and the code of an error that is an `rpc.Error`.
pub record Runtime (S : Type 0) : Type 0 where
  pub ctx_err : S → Option Error
  pub pause : Duration → S → Option Error × S
  pub rpc_code : Error → Option ℤ

-- `retryPolicy`
pub record RetryPolicy : Type 0 where
  pub max_retries : ℤ
  pub backoff : Duration

abbrev default_backoff : Duration
default_backoff = pos 250_000_000

abbrev pub max_wait : ℕ
max_wait = 5 * second

-- The parts of a message that tell a failure of the transport.
abbrev pub transient : List Text
transient =
    codes "connection reset"
    ∷ codes "connection refused"
    ∷ codes "broken pipe"
    ∷ codes "eof"
    ∷ codes "timeout"
    ∷ codes "deadline exceeded"
    ∷ codes "too many requests"
    ∷ codes "429"
    ∷ codes "502"
    ∷ codes "503"
    ∷ codes "504"
    ∷ codes "temporarily unavailable"
    ∷ codes "i/o timeout"
    ∷ []

-- The delay that `Do` starts from.
unfoldable pub base_backoff : RetryPolicy → Duration
base_backoff p = if leb_ℤ p.backoff (pos 0) then default_backoff else p.backoff

-- `backoff << attempt` in an `int64`, at most five seconds.
unfoldable pub wait : Duration → ℕ → Duration
wait backoff attempt =
    let d = to_int64 (to_word64 backoff * 2 ^ attempt % 2 ^ 64) in
    if ltb_ℤ (pos max_wait) d then pos max_wait else d

module _ {S : Type 0} (run : Runtime S) where
  open run use {ctx_err, pause, rpc_code}

  -- `retryable`, on an error that is not nil.
  unfoldable pub retryable : Error → Bool
  retryable e =
      if is e ethereum_not_found
      then false
      else if is e canceled
      then false
      else if is e deadline_exceeded
      then true
      else elim (rpc_code e) [
        | some code ↦ eqb_ℤ code (negsuc 32004)
        | none ↦ any (λ part. contains part (to_lower (message e))) transient
      ]

  module _ {A : Type 0} (p : RetryPolicy) (fn : Exec S A) where
    -- The error of a context that is done, joined to the last error of a call.
    abbrev ended : Option Error → Error → Error
    ended none c = c
    ended (some e) c = joined e c

    -- One round of the loop of `Do`, with the last error: its end on the left, and on the right the
    -- error and the state that the next round starts from.
    unfoldable pub round : ℕ → Option Error → S → (Result A × S) ⊎ (Error × S)
    unfolding base_backoff wait retryable
    round attempt last s = elim (ctx_err s) [
      | some c ↦ inl (err (ended last c), s)
      | none ↦
          let (r, s1) = fn s in
          elim r [
            | ok a ↦ inl (ok a, s1)
            | err e ↦ elim (leb_ℤ p.max_retries (pos attempt) || not (retryable e)) [
              | true ↦ inl (err e, s1)
              | false ↦
                  let (done, s2) = pause (wait (base_backoff p) attempt) s1 in
                  elim done [ some c ↦ inl (err (joined e c), s2) | none ↦ inr (e, s2) ]
            ]
          ]
    ]

    -- The loop from an attempt on; none if the fuel is used up.
    unfoldable pub retry_loop : ℕ → ℕ → Option Error → S → Option (Result A × S)
    unfolding round
    retry_loop zero attempt last s = none
    retry_loop (suc fuel) attempt last s = elim (round attempt last s) [
      | inl answer ↦ some answer
      | inr (e, s1) ↦ retry_loop fuel (suc attempt) (some e) s1
    ]

    -- `Do`: the fuel is one more than the retries.
    unfoldable pub retry_do : Exec S A
    unfolding retry_loop
    retry_do s = elim (retry_loop (suc (pos_part p.max_retries)) 0 none s) [
      | none ↦ (err (new []), s)
      | some answer ↦ answer
    ]
