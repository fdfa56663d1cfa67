-- ===== src/App/Health/Network.antt =====
-- A node on the wrong network, in the report of the health check.
use hoodalpha.Prelude.{
  Any, ℕ, ◌≡◌, sym, ap, ◌∙◌, subst, ◌≢◌, inl, inr, some, List, [], ◌∷◌, ◌++◌, append_assoc, arith,
}
use hoodalpha.Go.Error.{ok}
use hoodalpha.Domain.Health.{
  HealthStatus, down, ComponentHealth, aggregate, severity, NoneWorse, aggregate_worst,
}
use hoodalpha.App.ChainSync.{ChainProbe}
use hoodalpha.App.Health.{
  HealthChecker, ping_component, check_network, check_answer, check_chain, check_head, job, jobs,
  run_jobs, check,
}

module _ {S : Type 0} (h : HealthChecker S) where
  -- A probe that always finds its component down has a place among the results.
  run_jobs-down :
      (probe : S → ComponentHealth × S) (before_it after_it : List (S → ComponentHealth × S))
      (s : S)
      → ((t : S) → (probe t).0.status ≡ down)
      → Any (λ c. c.status ≡ down) (run_jobs h (before_it ++ probe ∷ after_it) s).0
  unfolding run_jobs
  run_jobs-down probe [] after_it s d = inl (d s)
  run_jobs-down probe (p ∷ ps) after_it s d = inr (run_jobs-down probe ps after_it (p s).1 d)

-- A bound on a component that is down is a bound by "down" itself.
down_bound :
    (cs : List ComponentHealth) (status : HealthStatus)
    → NoneWorse (severity status) cs
    → Any (λ c. c.status ≡ down) cs
    → status ≡ down
down_bound [] status h one = elim one [ ]
down_bound (c ∷ cs) status h (inl e) = ground (arith, h.0, e)
down_bound (c ∷ cs) status h (inr more) = down_bound cs status h.1 more

-- One component that is down takes the aggregate down.
aggregate_down : (cs : List ComponentHealth) → Any (λ c. c.status ≡ down) cs → aggregate cs ≡ down
aggregate_down cs one = down_bound cs (aggregate cs) (aggregate_worst cs).0 one

module _ {S : Type 0} (h : HealthChecker S) (probe : ChainProbe S) (id : ℕ) where
  check_chain_other :
      (s : S)
      → (probe.chain_id s).0 ≡ ok id
      → h.expected_chain ≢ 0
      → id ≢ h.expected_chain
      → (check_chain h probe s).0.status ≡ down
  unfolding check_chain check_answer check_network
  check_chain_other s answer some_expected other = ground arith

  jobs_split :
      (rest : List (S → ComponentHealth × S))
      → h.chain ≡ some probe
      → (job h (ping_component h "postgres") h.postgres ++ job h (ping_component h "redis") h.redis)
          ++ (check_chain h probe ∷ rest)
        ≡ job h (ping_component h "postgres") h.postgres
          ++ (job h (ping_component h "redis") h.redis ++ (job h (check_chain h) h.chain ++ rest))
  jobs_split rest configured =
      append_assoc (job h (ping_component h "postgres") h.postgres)
        (job h (ping_component h "redis") h.redis) (check_chain h probe ∷ rest)
      ∙ ap
          (λ o.
            job h (ping_component h "postgres") h.postgres
            ++ (job h (ping_component h "redis") h.redis ++ (job h (check_chain h) o ++ rest)))
          (sym configured)

  -- Where an identifier is expected, a node that answers every call with another one takes the whole
  -- report down, whatever else is up.
  pub wrong_network_down :
      (s : S)
      → h.chain ≡ some probe
      → ((t : S) → (probe.chain_id t).0 ≡ ok id)
      → h.expected_chain ≢ 0
      → id ≢ h.expected_chain
      → (check h s).0.status ≡ down
  unfolding check jobs
  wrong_network_down s configured answers some_expected other =
      let first =
        job h (ping_component h "postgres") h.postgres
        ++ job h (ping_component h "redis") h.redis in
      let last = job h (check_head h) h.head in
      aggregate_down (run_jobs h (jobs h) s).0 (
        subst (λ js. Any (λ c. c.status ≡ down) (run_jobs h js s).0) (jobs_split last configured)
          (run_jobs-down h (check_chain h probe) first last s
            (λ t. check_chain_other t (answers t) some_expected other)))
