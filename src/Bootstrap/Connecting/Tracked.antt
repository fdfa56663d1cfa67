-- ===== src/Bootstrap/Connecting/Tracked.antt =====
-- What `New` leaves open over the connections as the code makes them.
use hoodalpha.Prelude.{◌==◌, Bool-cases, ◌*◌, ◌≡◌, refl, ap, ◌∙◌, subst, inl, inr, List, ◌∷◌}
use hoodalpha.Prelude.Int.{pos}
use hoodalpha.Go.Text.{Text, codes, before}
use hoodalpha.Go.Error.{Error, wrap, Result, ok, err, Result-cases}
use hoodalpha.Go.Exec.{
  Exec, mapped, pure, lift, wrapping, attempt, continue, ◌>>=◌, Keeps, bind-Keeps,
}
use hoodalpha.Go.Time.{Duration, second}
use hoodalpha.Chain.Retry.{retry_do}
use hoodalpha.Chain.Retry.Keeping.{retry_do-Keeps}
use hoodalpha.Chain.Client.{
  ClientOptions, with_defaults, retry_policy, call, client_chain_id, verify_network, dial,
}
use hoodalpha.Postgres.Pool.{PoolConfig, pool_config, behind_ping, connect_postgres}
use hoodalpha.Postgres.Migrate.{migrate_up}
use hoodalpha.Config.{PostgresConfig, RedisConfig, Config}
use hoodalpha.Bootstrap.{Handle, postgres, redis, chain, Wanted, new_deps}
use hoodalpha.Bootstrap.RedisClient.{redis_options, behind_redis_ping, connect_redis}
use hoodalpha.Bootstrap.Closing.{opened_by, IsTracked, Left, new_deps-live}
use hoodalpha.Postgres.Migrate.Keeping.{with_migrator-Keeps}
use hoodalpha.Bootstrap.Connecting.{
  Drivers, client_options, connect_to, disconnect_from, connections, IsDriving,
}

-- A handle is open exactly behind a success.
abbrev Opened : {S A : Type 0} → (S → List Handle) → Handle → List Handle → Result A × S → Type 0
Opened live h before (ok _, s1) = live s1 ≡ h ∷ before
Opened live h before (err _, s1) = live s1 ≡ before

module _ {S : Type 0} (drivers : Drivers S) (live : S → List Handle)
    (driving : IsDriving drivers live) where
  open driving use {
    pool_made, pool_failed, pool_pinged, redis_made, redis_pinged, node_made, node_failed,
    node_asked, paused, goose_apart, goose_up, pool_closed, redis_closed, node_closed,
  }

  behind_ping-Opened :
      (r : Result Unit) (before : List Handle) (s : S)
      → live s ≡ postgres ∷ before
      → Opened live postgres before (behind_ping drivers.pool r s)
  behind_ping-Opened (ok _) before s e = e
  behind_ping-Opened (err f) before s e = pool_closed s before e

  behind_redis_ping-Opened :
      (r : Result Unit) (before : List Handle) (s : S)
      → live s ≡ redis ∷ before
      → Opened live redis before (behind_redis_ping drivers.redis_api r s)
  behind_redis_ping-Opened (ok _) before s e = e
  behind_redis_ping-Opened (err f) before s e = redis_closed s before e

  connect_redis-Opened :
      (c : RedisConfig) (s : S) → Opened live redis (live s) (connect_redis drivers.redis_api c s)
  unfolding connect_redis
  connect_redis-Opened c s =
      let s1 : S = drivers.redis_api.new_client (redis_options c) s in
      let d : Duration = pos (5 * second) in
      behind_redis_ping-Opened (drivers.redis_api.ping d s1).0 (live s)
        (drivers.redis_api.ping d s1).1 (redis_pinged d s1 ∙ redis_made (redis_options c) s)

  -- Behind code that opens nothing, and behind code that has opened the handle.
  kept-Opened :
      {A B : Type 0} (h : Handle) (m : Exec S A) (f : A → Exec S B) (s : S)
      → Keeps live m
      → ((a : A) (t : S) → live t ≡ live s → Opened live h (live s) (f a t))
      → Opened live h (live s) ((m >>= f) s)
  kept-Opened h m f s keeps next = elim (Result-cases (m s).0) [
    | inl (a, e) ↦ rw e (next a (m s).1 (keeps s))
    | inr (x, e) ↦ rw e (keeps s)
  ]

  made-Opened :
      {A B : Type 0} (h : Handle) (m : Exec S A) (f : A → Exec S B) (before : List Handle) (s : S)
      → Opened live h before (m s)
      → ((a : A) (t : S) → live t ≡ h ∷ before → Opened live h before (f a t))
      → Opened live h before ((m >>= f) s)
  made-Opened h m f before s made next = by_answer (m s) made
    where
      by_answer :
          (answer : Result _ × S)
          → Opened live h before answer
          → Opened live h before (continue answer.0 f answer.1)
      by_answer (ok a, t) e = next a t e
      by_answer (err x, t) e = e

  new_pool-Opened :
      (o : PoolConfig) (before : List Handle) (s : S)
      → live s ≡ before
      → Opened live postgres before (drivers.pool.new_with_config o s)
  new_pool-Opened o before s e =
      by_answer (drivers.pool.new_with_config o s) (pool_made o s) (pool_failed o s)
    where
      by_answer :
          (answer : Result Unit × S)
          → ((s1 : S) → answer ≡ (ok tt, s1) → live s1 ≡ postgres ∷ live s)
          → ((s1 : S) (x : Error) → answer ≡ (err x, s1) → live s1 ≡ live s)
          → Opened live postgres before answer
      by_answer (ok tt, t) made failed = made t refl ∙ ap (λ hs. postgres ∷ hs) e
      by_answer (err x, t) made failed = failed t x refl ∙ e

  wrapping-Opened :
      {A : Type 0} (g : Error → Error) (h : Handle) (before : List Handle) (answer : Result A × S)
      → Opened live h before answer
      → Opened live h before (mapped g answer.0, answer.1)
  wrapping-Opened g h before (ok a, t) e = e
  wrapping-Opened g h before (err x, t) e = e

  connect_postgres-Opened :
      (c : PostgresConfig) (s : S)
      → Opened live postgres (live s) (connect_postgres drivers.pool c s)
  unfolding connect_postgres
  connect_postgres-Opened c s =
      kept-Opened postgres
        (wrapping (wrap (codes "parse postgres url")) (lift (drivers.pool.parse_config c.url))) _ s
        (λ _. refl)
        (λ parsed t e.
          made-Opened postgres
            (wrapping (wrap (codes "create pool"))
              (drivers.pool.new_with_config (pool_config c parsed)))
            (λ _. attempt (drivers.pool.ping c.connect_timeout) >>= behind_ping drivers.pool)
            (live s) t
            (wrapping-Opened (wrap (codes "create pool")) postgres (live s)
              (drivers.pool.new_with_config (pool_config c parsed) t)
              (new_pool-Opened (pool_config c parsed) (live s) t e))
            (λ _ u open_now.
              behind_ping-Opened (drivers.pool.ping c.connect_timeout u).0 (live s)
                (drivers.pool.ping c.connect_timeout u).1
                (pool_pinged c.connect_timeout u ∙ open_now)))

  client_chain_id-Keeps : (o : ClientOptions) → Keeps live (client_chain_id drivers.node o)
  unfolding client_chain_id call
  client_chain_id-Keeps o =
      bind-Keeps live
        (retry_do drivers.node.runtime (retry_policy drivers.node o)
          (drivers.node.eth_chain_id o.request_timeout))
        _
        (retry_do-Keeps live drivers.node.runtime paused (retry_policy drivers.node o)
          (drivers.node.eth_chain_id o.request_timeout) (node_asked o.request_timeout))
        (λ id s. refl)

  verify_network-Opened :
      (o : ClientOptions) (before : List Handle) (s : S)
      → live s ≡ chain ∷ before
      → Opened live chain before (verify_network drivers.node o s)
  unfolding verify_network
  verify_network-Opened o before s e = elim (Bool-cases (o.expected_chain == 0)) [
    | inl unchecked ↦ rw unchecked e
    | inr checked ↦
        let after : S = (client_chain_id drivers.node o s).1 in
        let open_now : live after ≡ chain ∷ before = client_chain_id-Keeps o s ∙ e in
        elim (Result-cases (client_chain_id drivers.node o s).0) [
          | inr (x, failed) ↦ rw (checked, failed) (node_closed after before open_now)
          | inl (got, read) ↦ elim (Bool-cases (got == o.expected_chain)) [
            | inl expected ↦ rw (checked, read, expected) open_now
            | inr other ↦ rw (checked, read, other) (node_closed after before open_now)
          ]
        ]
  ]

  new_node-Opened : (url : Text) (s : S) → Opened live chain (live s) (drivers.node.connect url s)
  new_node-Opened url s =
      by_answer (drivers.node.connect url s) (node_made url s) (node_failed url s)
    where
      by_answer :
          (answer : Result Unit × S)
          → ((s1 : S) → answer ≡ (ok tt, s1) → live s1 ≡ chain ∷ live s)
          → ((s1 : S) (x : Error) → answer ≡ (err x, s1) → live s1 ≡ live s)
          → Opened live chain (live s) answer
      by_answer (ok tt, t) made failed = made t refl
      by_answer (err x, t) made failed = failed t x refl

  dial-Opened : (o : ClientOptions) (s : S) → Opened live chain (live s) (dial drivers.node o s)
  unfolding dial
  dial-Opened o s =
      made-Opened chain (wrapping (wrap (codes "dial rpc")) (drivers.node.connect o.rpc_url))
        (λ _. verify_network drivers.node (with_defaults o)) (live s) s
        (wrapping-Opened (wrap (codes "dial rpc")) chain (live s) (drivers.node.connect o.rpc_url s)
          (new_node-Opened o.rpc_url s))
        (λ _ t. verify_network-Opened (with_defaults o) (live s) t)

  connect_to-Opened :
      (c : Config) (h : Handle) (s : S) → Opened live h (live s) (connect_to drivers c h s)
  connect_to-Opened c postgres s = connect_postgres-Opened c.postgres s
  connect_to-Opened c redis s = connect_redis-Opened c.redis s
  connect_to-Opened c chain s =
      made-Opened chain (dial drivers.node (client_options c.chain)) (λ _. pure tt) (live s) s
        (dial-Opened (client_options c.chain) s) (λ _ t e. e)

  disconnect_from-closes :
      (c : Config) (h : Handle) (s : S) (rest : List Handle)
      → live s ≡ h ∷ rest
      → live (disconnect_from drivers c h s).1 ≡ rest
  disconnect_from-closes c postgres s rest e = pool_closed s rest e
  disconnect_from-closes c redis s rest e = redis_closed s rest e
  disconnect_from-closes c chain s rest e = node_closed s rest e

  pub connections-IsTracked : (c : Config) → IsTracked (connections drivers c) live
  unfolding migrate_up
  connections-IsTracked c = record {
    made = λ h s s1 e. subst (Opened live h (live s)) e (connect_to-Opened c h s);
    failed = λ h s s1 f e. subst (Opened live h (live s)) e (connect_to-Opened c h s);
    migrated =
        with_migrator-Keeps drivers.goose live goose_apart c.postgres drivers.goose.up goose_up;
    shut = λ h s rest e. disconnect_from-closes c h s rest e;
  }

  -- `New` over the connections as the code makes them, where the libraries open and close what they say: behind an
  -- error, of a connection, of a ping, of a migration or of the test of the network, exactly what
  -- was open before is open; behind a success, the wanted connections on top of that.
  pub new_connections-live :
      (c : Config) (o : Wanted) (s : S)
      → Left
          (connections drivers c)
          live
          (connections-IsTracked c)
          (opened_by o)
          (live s)
          (new_deps (connections drivers c) o s)
  new_connections-live c o s =
      new_deps-live (connections drivers c) live (connections-IsTracked c) o s
