-- ===== src/Domain/Health.antt =====
-- internal/domain/health.go: the state of a dependency and of the whole process.
use hoodalpha.Prelude.{All, Any, ℕ, ◌≤◌, ◌≡◌, refl, ◌⊎◌, inl, inr, List, [], ◌∷◌, arith}
use hoodalpha.Go.Text.{Text}
use hoodalpha.Go.Time.{Time, Duration}

-- `HealthStatus`: the code writes no other value.
pub data HealthStatus : Type 0 where
  up degraded down : HealthStatus

-- `ComponentHealth`; `Details` as the pairs in the order in which they are written.
pub record ComponentHealth : Type 0 where
  pub name : Text
  pub status : HealthStatus
  pub latency : Duration
  pub latency_ms : Duration
  pub error : Text
  pub details : List (Text × Text)

-- `HealthReport`
pub record HealthReport : Type 0 where
  pub status : HealthStatus
  pub checked_at : Time
  pub version : Text
  pub components : List ComponentHealth

-- The loop of `Aggregate`, which returns at the first component that is down.
aggregate_from : HealthStatus → List ComponentHealth → HealthStatus
aggregate_from worst [] = worst
aggregate_from worst (c ∷ cs) = elim c.status [
  | down ↦ down
  | degraded ↦ aggregate_from degraded cs
  | up ↦ aggregate_from worst cs
]

-- `Aggregate`
unfoldable pub aggregate : List ComponentHealth → HealthStatus
unfolding aggregate_from
aggregate = aggregate_from up

-- How bad a state is.
abbrev pub severity : HealthStatus → ℕ
severity up = 0
severity degraded = 1
severity down = 2

-- No component is worse than a bound.
abbrev pub NoneWorse : ℕ → List ComponentHealth → Type 0
NoneWorse k = All (λ c. severity c.status ≤ k)

NoneWorse-of_two : (k : ℕ) (cs : List ComponentHealth) → 2 ≤ k → NoneWorse k cs
NoneWorse-of_two k [] h = tt
NoneWorse-of_two k (c ∷ cs) h = (ground arith, NoneWorse-of_two k cs h)

status_cases : (s : HealthStatus) → (s ≡ up) ⊎ ((s ≡ degraded) ⊎ (s ≡ down))
status_cases up = inl refl
status_cases degraded = inr (inl refl)
status_cases down = inr (inr refl)

le-aggregate_from :
    (worst : HealthStatus) (cs : List ComponentHealth)
    → severity worst ≤ 1
    → severity worst ≤ severity (aggregate_from worst cs)
unfolding aggregate_from
le-aggregate_from worst [] h = omega arith
le-aggregate_from worst (c ∷ cs) h =
    ground (arith, le-aggregate_from worst cs, le-aggregate_from degraded cs)

aggregate_from-NoneWorse :
    (worst : HealthStatus) (cs : List ComponentHealth) (k : ℕ)
    → severity worst ≤ 1
    → severity (aggregate_from worst cs) ≤ k
    → NoneWorse k cs
unfolding aggregate_from
aggregate_from-NoneWorse worst [] k h b = tt
aggregate_from-NoneWorse worst (c ∷ cs) k h b = (
  ground (arith, le-aggregate_from degraded cs),
  elim (status_cases c.status) [
    | inl e ↦ aggregate_from-NoneWorse worst cs k h (ground arith)
    | inr (inl e) ↦ aggregate_from-NoneWorse degraded cs k (omega arith) (ground arith)
    | inr (inr e) ↦ NoneWorse-of_two k cs (ground arith)
  ],
)

aggregate_from_reached :
    (worst : HealthStatus) (cs : List ComponentHealth)
    → (aggregate_from worst cs ≡ worst) ⊎ Any (λ c. c.status ≡ aggregate_from worst cs) cs
unfolding aggregate_from
aggregate_from_reached worst [] = inl refl
aggregate_from_reached worst (c ∷ cs) =
    ground (arith, aggregate_from_reached worst cs, aggregate_from_reached degraded cs)

-- The whole is as bad as its worst component: no component is worse than the report, and the report
-- is "up" or is the state of some component.
pub aggregate_worst :
    (cs : List ComponentHealth)
    → NoneWorse (severity (aggregate cs)) cs
      × ((aggregate cs ≡ up) ⊎ Any (λ c. c.status ≡ aggregate cs) cs)
unfolding aggregate
aggregate_worst cs =
    (aggregate_from-NoneWorse up cs _ (omega arith) (omega arith), aggregate_from_reached up cs)
