-- ===== src/App/Health.antt =====
-- internal/application/health.go: `HealthChecker`. The probes run at the same time and write only their
-- own result; here they run one after the other.
pub mod Network
pub mod Digits
use hoodalpha.Prelude.{
  ◌==◌, if◌then◌else◌, ℕ, zero, suc, ◌+◌, ◌*◌, ◌/◌, ◌%◌, String, Bool, not, ◌&&◌, Option, none,
  some, List, [], ◌∷◌, ◌++◌,
}
use hoodalpha.Prelude.Int.{pos, negsuc, ◌-ℤ◌, leb_ℤ, ltb_ℤ}
use hoodalpha.Go.Text.{Text, codes}
use hoodalpha.Go.Error.{message, Result, ok, err}
use hoodalpha.Go.Exec.{Exec}
use hoodalpha.Go.Time.{Time, Duration, minute, is_zero_time, since}
use hoodalpha.Domain.Health.{
  HealthStatus, up, degraded, down, ComponentHealth, HealthReport, aggregate,
}
use hoodalpha.Domain.Chain.{chain_name, BlockRef, is_stale}
use hoodalpha.App.ChainSync.{ChainProbe}

-- `HeadWatcher`: the two reads of the subscriber.
pub record HeadWatcher (S : Type 0) : Type 0 where
  pub last : S → BlockRef × Time
  pub connected : S → Bool

-- `HealthChecker`, with `Format(time.RFC3339)` of an instant.
pub record HealthChecker (S : Type 0) : Type 0 where
  pub postgres : Option (Exec S Unit)
  pub redis : Option (Exec S Unit)
  pub chain : Option (ChainProbe S)
  pub head : Option (HeadWatcher S)
  pub expected_chain : ℕ
  pub stale_after : Duration
  pub version : Text
  pub now : S → Time
  pub rfc3339 : Time → Text

-- The default of `NewHealthChecker`.
unfoldable pub new_health_checker : {S : Type 0} → HealthChecker S → HealthChecker S
new_health_checker h = record h {
  stale_after = if leb_ℤ h.stale_after (pos 0) then pos (2 * minute) else h.stale_after;
}

-- `Duration.Milliseconds`, which cuts toward zero.
unfoldable pub milliseconds : Duration → Duration
milliseconds (pos n) = pos (n / 1_000_000)
milliseconds (negsuc n) = pos 0 -ℤ pos ((n + 1) / 1_000_000)

-- The loop of `itoa` over the digits.
itoa_digits : ℕ → ℕ → Text → Text
itoa_digits zero v buf = buf
itoa_digits (suc fuel) v buf =
    let more = itoa_digits fuel (v / 10) ((b'0' + v % 10) ∷ buf) in if v == 0 then buf else more

-- `itoa`: twenty digits hold every 64-bit number.
unfoldable pub itoa : ℕ → Text
unfolding itoa_digits
itoa v = if v == 0 then codes "0" else itoa_digits 20 v []

-- `btoa`
abbrev pub btoa : Bool → Text
btoa b = if b then codes "true" else codes "false"

abbrev pub component : String → HealthStatus → String → List (Text × Text) → ComponentHealth
component name status error details = record {
  name = codes name;
  status = status;
  latency = pos 0;
  latency_ms = pos 0;
  error = codes error;
  details = details;
}

abbrev pub timed : Time → Time → ComponentHealth → ComponentHealth
timed start end c = record c {
  latency = since end start;
  latency_ms = milliseconds (since end start);
}

abbrev pub stopped : ComponentHealth → Text → List (Text × Text) → ComponentHealth
stopped c error details = record c { status = down; error = error; details = details }

module _ {S : Type 0} (h : HealthChecker S) where
  open h use {expected_chain, stale_after, now, rfc3339}

  -- `pingComponent`
  unfoldable pub ping_component : String → Exec S Unit → S → ComponentHealth × S
  unfolding milliseconds
  ping_component name health s =
      let (answer, s') = health s in
      let c = timed (now s) (now s') (component name up "" []) in
      elim answer [ ok _ ↦ (c, s') | err e ↦ (stopped c (message e) [], s') ]

  -- `checkChain` behind the chain's identifier: the details so far, the error where there is one, and
  -- whether the head is stale.
  abbrev pub chain_up : ComponentHealth
  chain_up = component "chain_rpc" up "" []

  abbrev pub identity_details : ℕ → List (Text × Text)
  unfolding itoa chain_name
  identity_details id = (codes "chain_id", itoa id) ∷ (codes "chain_name", chain_name id) ∷ []

  abbrev pub block_details : BlockRef → List (Text × Text)
  unfolding itoa
  block_details block =
      (codes "last_block", itoa block.number) ∷ (codes "last_block_time", rfc3339 block.time) ∷ []

  -- The state of a chain whose latest block is known.
  unfoldable pub judge_block : ℕ → BlockRef → Time → ComponentHealth
  unfolding is_stale
  judge_block id block at =
      let c = record chain_up { details = identity_details id ++ block_details block } in
      if is_stale block at stale_after
      then record c { status = degraded; error = codes "chain head is stale" }
      else c

  -- `checkChain` for a chain whose identifier is known.
  unfoldable pub check_network : ChainProbe S → ℕ → S → ComponentHealth × S
  unfolding judge_block
  check_network probe id s =
      if not (expected_chain == 0) && not (id == expected_chain)
      then (
        stopped chain_up (codes "chain id mismatch")
            (identity_details id ++ (codes "expected_chain_id", itoa expected_chain) ∷ []),
        s,
      )
      else let (latest, s') = probe.latest_block s in
        elim latest [
          | err e ↦ (stopped chain_up (message e) (identity_details id), s')
          | ok block ↦ (judge_block id block (now s'), s')
        ]

  -- `checkChain` behind the first call.
  unfoldable pub check_answer : ChainProbe S → Result ℕ → S → ComponentHealth × S
  unfolding check_network
  check_answer probe (err e) s = (stopped chain_up (message e) [], s)
  check_answer probe (ok id) s = check_network probe id s

  -- `checkChain`
  unfoldable pub check_chain : ChainProbe S → S → ComponentHealth × S
  unfolding check_answer milliseconds
  check_chain probe s =
      let (answer, s') = probe.chain_id s in
      let (c, s'') = check_answer probe answer s' in (timed (now s) (now s'') c, s'')

  -- `checkHead`
  unfoldable pub check_head : HeadWatcher S → S → ComponentHealth × S
  unfolding itoa
  check_head watcher s =
      let (last, seen_at) = watcher.last s in
      let connected = (codes "connected", btoa (watcher.connected s)) ∷ [] in
      let seen =
        connected
        ++ (codes "last_block", itoa last.number) ∷ (codes "last_head_at", rfc3339 seen_at) ∷ [] in
      if not (watcher.connected s)
      then (component "chain_ws" down "websocket not connected" connected, s)
      else if is_zero_time seen_at
      then (component "chain_ws" degraded "no block head received yet" connected, s)
      else if ltb_ℤ stale_after (since (now s) seen_at)
      then (component "chain_ws" degraded "no block head received recently" seen, s)
      else (component "chain_ws" up "" seen, s)

  abbrev Probe : Type 0
  Probe = S → ComponentHealth × S

  abbrev job : {A : Type 0} → (A → Probe) → Option A → List Probe
  job probe none = []
  job probe (some a) = probe a ∷ []

  -- The jobs of `Check`: what is not configured is not reported.
  unfoldable pub jobs : List Probe
  unfolding ping_component check_chain check_head
  jobs =
      job (ping_component "postgres") h.postgres
      ++ (job (ping_component "redis") h.redis
          ++ (job check_chain h.chain ++ job check_head h.head))

  run_jobs : List Probe → S → List ComponentHealth × S
  run_jobs [] s = ([], s)
  run_jobs (probe ∷ probes) s =
      let (c, s') = probe s in let (cs, s'') = run_jobs probes s' in (c ∷ cs, s'')

  -- `Check`
  unfoldable pub check : S → HealthReport × S
  unfolding run_jobs jobs
  check s =
      let (results, s') = run_jobs jobs s in
      (
        record {
          status = aggregate results;
          checked_at = now s';
          version = h.version;
          components = results;
        },
        s',
      )
