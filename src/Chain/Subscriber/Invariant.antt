-- ===== src/Chain/Subscriber/Invariant.antt =====
-- What the fields of `HeadSubscriber` say at every moment of `Run`.
use hoodalpha.Prelude.{◌≡◌, refl, ap, subst, Bool, true, false, Option, some, [], ◌∷◌, arith}
use hoodalpha.Go.Error.{Error, Result, ok, err}
use hoodalpha.Go.Time.{Duration, zero_time}
use hoodalpha.Chain.Subscriber.{
  SubscriberOptions, Phase, starting, streaming, ended, closed, pausing, handing, returned, State,
  Opening, open_session, set_connected, at_phase, opened, on_header, next_backoff, initial, RunStep,
  cancel, give_up, open_step, receive, hand, leave, lose, disconnect, stop, start_timer, stop_timer,
  wake, RunSteps, rest, then_step,
}

abbrev pub is_streaming : Phase → Bool
is_streaming (streaming _) = true
is_streaming (handing _ _) = true
is_streaming _ = false

-- In a session, or between its end and `setConnected(false)`.
abbrev pub in_session : Phase → Bool
in_session (streaming _) = true
in_session (handing _ _) = true
in_session (ended _) = true
in_session _ = false

abbrev pub IsHanded : State → Type 0
IsHanded s = elim s.calls [
  | [] ↦ (s.last.number ≡ 0) × (s.seen_at ≡ zero_time)
  | ref ∷ _ ↦ s.last ≡ ref
]

-- The last head is the newest that `onHead` was given, or the one that it is about to be given; before any,
-- it has the number 0 and the zero time.
abbrev pub Newest : Phase → State → Type 0
Newest (handing b ref) s = s.last ≡ ref
Newest _ s = IsHanded s

abbrev pub IsNewest : State → Type 0
IsNewest s = Newest s.phase s

IsNewest-IsHanded : (p : Phase) (s : State) → is_streaming p ≡ false → Newest p s → IsHanded s
IsNewest-IsHanded (starting b) s h k = k
IsNewest-IsHanded (streaming b) s h k = k
IsNewest-IsHanded (ended b) s h k = k
IsNewest-IsHanded (closed b) s h k = k
IsNewest-IsHanded (pausing b) s h k = k
IsNewest-IsHanded (handing b ref) s h k = ground arith
IsNewest-IsHanded (returned e) s h k = k

handed-Newest : (p : Phase) (s : State) → is_streaming p ≡ false → IsHanded s → Newest p s
handed-Newest (starting b) s h k = k
handed-Newest (streaming b) s h k = k
handed-Newest (ended b) s h k = k
handed-Newest (closed b) s h k = k
handed-Newest (pausing b) s h k = k
handed-Newest (handing b ref) s h k = ground arith
handed-Newest (returned e) s h k = k

Newest-any_ctx :
    (p : Phase) (s : State) (c : Option Error) → Newest p s → Newest p (record s { ctx = c })
Newest-any_ctx (starting b) s c k = k
Newest-any_ctx (streaming b) s c k = k
Newest-any_ctx (ended b) s c k = k
Newest-any_ctx (closed b) s c k = k
Newest-any_ctx (pausing b) s c k = k
Newest-any_ctx (handing b ref) s c k = k
Newest-any_ctx (returned e) s c k = k

-- In a phase that is known, but not handing, the last head was handed on.
IsHanded-at :
    (p : Phase) (s : State) → s.phase ≡ p → is_streaming p ≡ false → IsNewest s → IsHanded s
IsHanded-at p s e h k = IsNewest-IsHanded p s h (subst (λ q. Newest q s) e k)

abbrev pub IsHonest : State → Type 0
IsHonest s =
    (s.connected ≡ true → in_session s.phase ≡ true)
    × (is_streaming s.phase ≡ true → s.connected ≡ true)
    × IsNewest s

initial-IsHonest : (o : SubscriberOptions) → IsHonest (initial o)
unfolding initial
initial-IsHonest o = (λ h. ground arith, λ h. ground arith, (refl, refl))

idle_still : (p : Phase) → in_session p ≡ false → is_streaming p ≡ false
idle_still p h = ground arith

-- Outside a session the phase may change to any but streaming.
moved :
    (s : State) (p q : Phase)
    → s.phase ≡ p
    → in_session p ≡ false
    → is_streaming q ≡ false
    → IsHonest s
    → IsHonest (at_phase q s)
moved s p q e idle still (from, to, newest) =
    let calm : is_streaming p ≡ false = idle_still p idle in
    (
      λ h. ground (arith, from h, ap in_session e),
      λ h. ground arith,
      handed-Newest q (at_phase q s) still (IsHanded-at p s e calm newest),
    )

module _ (o : SubscriberOptions) where
  opened-IsHonest :
      (s : State) (b : Duration) (a : Opening)
      → s.phase ≡ starting b
      → IsHonest s
      → IsHonest (opened o a b s)
  unfolding opened
  opened-IsHonest s b a at_start (from, to, newest) = by_answer (open_session o a)
    where
      by_answer :
          (r : Result Unit)
          → IsHonest (elim r [
            | ok _ ↦ at_phase (streaming b) (set_connected true s)
            | err _ ↦ at_phase (ended b) s
          ])
      by_answer (ok _) = (λ h. refl, λ h. refl, IsHanded-at (starting b) s at_start refl newest)
      by_answer (err _) =
          (λ h. refl, λ h. ground arith, IsHanded-at (starting b) s at_start refl newest)

  step-IsHonest : (s t : State) → RunStep o s t → IsHonest s → IsHonest t
  unfolding on_header
  step-IsHonest _ _ (cancel s e h) (from, to, newest) =
      (from, to, Newest-any_ctx s.phase s (some e) newest)
  step-IsHonest _ _ (give_up s b e p c) honest =
      moved s (starting b) (returned e) p refl refl honest
  step-IsHonest _ _ (open_step s b a p c) honest = opened-IsHonest s b a p honest
  step-IsHonest _ _ (receive s b h at p) (from, to, newest) =
      (λ c. refl, λ c. to (ap is_streaming p), refl)
  step-IsHonest _ _ (hand s b ref p) (from, to, newest) =
      (λ c. refl, λ c. to (ap is_streaming p), subst (λ q. Newest q s) p newest)
  step-IsHonest _ _ (leave s b e p c) (from, to, newest) =
      (λ h. refl, λ h. ground arith, subst (λ q. Newest q s) p newest)
  step-IsHonest _ _ (lose s b failure p) (from, to, newest) =
      (λ h. refl, λ h. ground arith, subst (λ q. Newest q s) p newest)
  step-IsHonest _ _ (disconnect s b p) (from, to, newest) =
      (λ h. ground arith, λ h. ground arith, IsHanded-at (ended b) s p refl newest)
  step-IsHonest _ _ (stop s b e p c) honest = moved s (closed b) (returned e) p refl refl honest
  step-IsHonest _ _ (start_timer s b p c) honest = moved s (closed b) (pausing b) p refl refl honest
  step-IsHonest _ _ (stop_timer s b e p c) honest =
      moved s (pausing b) (returned e) p refl refl honest
  step-IsHonest _ _ (wake s b p) honest =
      moved s (pausing b) (starting (next_backoff o b)) p refl refl honest

  steps-IsHonest : (s t : State) → RunSteps o s t → IsHonest s → IsHonest t
  steps-IsHonest _ _ (rest s) h = h
  steps-IsHonest _ _ (then_step s t u before step) h =
      step-IsHonest t u step (steps-IsHonest s t before h)

  -- At every moment of `Run`: a subscriber that reports a connection is in a session, or at the end of one; while
  -- headers stream it reports the connection; and the head it reports is the newest that `onHead` was
  -- given, or the one that it is given next.
  pub run-IsHonest : (s : State) → RunSteps o (initial o) s → IsHonest s
  run-IsHonest s steps = steps-IsHonest (initial o) s steps (initial-IsHonest o)
