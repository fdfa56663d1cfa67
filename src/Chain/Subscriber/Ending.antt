-- ===== src/Chain/Subscriber/Ending.antt =====
-- What is left of `Run` once its context is done.
use hoodalpha.Prelude.{ℕ, suc, ◌≡◌, Bool, true, false, ◌&&◌}
use hoodalpha.Go.Error.{Error}
use hoodalpha.Chain.Subscriber.{
  SubscriberOptions, Phase, starting, streaming, ended, closed, pausing, handing, returned, State,
  RunStep,
}

-- How far a phase is from the end of `Run` once the context is done, beside the headers that still arrive.
abbrev pub rank : Phase → ℕ
rank (streaming _) = 3
rank (handing _ _) = 3
rank (ended _) = 2
rank (closed _) = 1
rank (pausing _) = 2
rank (starting _) = 1
rank (returned _) = 0

-- In the loop of a session.
abbrev pub in_loop : Phase → Bool
in_loop (streaming _) = true
in_loop (handing _ _) = true
in_loop _ = false

-- Where the code goes next once the context is done with an error, with no answer of the node or a timer.
abbrev pub towards_end : Error → Phase → Phase
towards_end e (streaming b) = ended b
towards_end e (handing b _) = streaming b
towards_end e (ended b) = closed b
towards_end e (closed _) = returned e
towards_end e (pausing _) = returned e
towards_end e (starting _) = returned e
towards_end e (returned f) = returned f

module _ (o : SubscriberOptions) where
  -- A number of steps, beside those that take a header.
  pub data Counted : ℕ → State → State → Type 0 where
    none_yet : (s : State) → Counted 0 s s
    head :
        (n : ℕ) (s t u : State)
        → Counted n s t
        → RunStep o t u
        → (in_loop t.phase && in_loop u.phase) ≡ true
        → Counted n s u
    other :
        (n : ℕ) (s t u : State)
        → Counted n s t
        → RunStep o t u
        → (in_loop t.phase && in_loop u.phase) ≡ false
        → Counted (suc n) s u
