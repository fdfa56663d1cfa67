-- ===== src/Chain/Client/Network.antt =====
-- `Dial` and `ChainID`: which network a client reads.
use hoodalpha.Prelude.{ℕ, ◌^◌, ◌<◌, ◌≡◌, refl, ◌≢◌, inl, inr, true, arith}
use hoodalpha.Prelude.Int.{ℤ, pos, negsuc}
use hoodalpha.Go.Error.{wrong_chain, Error, is, ok, err, Result-cases}
use hoodalpha.Go.Time.{Duration}
use hoodalpha.Chain.Retry.Bounds.{retry_do_ok}
use hoodalpha.Chain.Client.{
  Node, ClientOptions, with_defaults, retry_policy, call, client_chain_id, mismatch, verify_network,
  dial,
}

module _ {S : Type 0} (node : Node S) where
  -- The node answered with an identifier of the network, and the answer left this state.
  abbrev pub Reported : Duration → ℤ → S → Type 0
  Reported limit id s1 = (s : S) × (node.eth_chain_id limit s ≡ (ok id, s1))

  call_reports :
      (o : ClientOptions) (s s1 : S) (id : ℤ)
      → call node o node.eth_chain_id s ≡ (ok id, s1)
      → Reported o.request_timeout id s1
  unfolding call
  call_reports o s s1 id h =
      retry_do_ok node.runtime (retry_policy node o) (node.eth_chain_id o.request_timeout)
        (Reported o.request_timeout) (λ s s1 a e. (s, e)) s s1 id h

  call_eth :
      (o : ClientOptions) (s s1 : S) (id : ℕ)
      → client_chain_id node o s ≡ (ok id, s1)
      → (id < 2 ^ 64) × (call node o node.eth_chain_id s ≡ (ok (pos id), s1))
  unfolding client_chain_id
  call_eth o s s1 id h = elim (Result-cases (call node o node.eth_chain_id s).0) [
    | inl (pos n, r) ↦ ground arith
    | inl (negsuc n, r) ↦ ground arith
    | inr (f, r) ↦ ground arith
  ]

  -- The identifier that `ChainID` returns is one that the node reported, and fits into 64 bits.
  pub chain_id-Reported :
      (o : ClientOptions) (s s1 : S) (id : ℕ)
      → client_chain_id node o s ≡ (ok id, s1)
      → (id < 2 ^ 64) × Reported o.request_timeout (pos id) s1
  chain_id-Reported o s s1 id h =
      let (small, e) = call_eth o s s1 id h in (small, call_reports o s s1 (pos id) e)

  verify_network_ok :
      (o kept : ClientOptions) (s s1 : S)
      → o.expected_chain ≢ 0
      → verify_network node o s ≡ (ok kept, s1)
      → (kept ≡ o) × (client_chain_id node o s ≡ (ok o.expected_chain, s1))
  unfolding verify_network
  verify_network_ok o kept s s1 h e = elim (Result-cases (client_chain_id node o s).0) [
    | inl (id, r) ↦ ground arith
    | inr (f, r) ↦ ground arith
  ]

  verify_network_err :
      (o : ClientOptions) (s s1 : S) (e : Error)
      → verify_network node o s ≡ (err e, s1)
      → s1 ≡ node.disconnect (client_chain_id node o s).1
  unfolding verify_network
  verify_network_err o s s1 e h = elim (Result-cases (client_chain_id node o s).0) [
    | inl (id, r) ↦ ground arith
    | inr (f, r) ↦ ground arith
  ]

  -- A client that expects a network is returned only if the node reported exactly that network, in
  -- its last answer before `Dial` returned.
  pub dial_verified :
      (o kept : ClientOptions) (s s1 : S)
      → o.expected_chain ≢ 0
      → dial node o s ≡ (ok kept, s1)
      → (kept ≡ with_defaults o) × Reported kept.request_timeout (pos o.expected_chain) s1
  unfolding dial with_defaults
  dial_verified o kept s s1 h e = elim (Result-cases (node.connect o.rpc_url s).0) [
    | inr (f, r) ↦ ground arith
    | inl (u, r) ↦
        let (same_options, id) =
          verify_network_ok (with_defaults o) kept (node.connect o.rpc_url s).1 s1 h
            (ground arith) in
        (same_options, rw same_options (chain_id-Reported (with_defaults o) _ s1 _ id).1)
  ]

  -- Where the connection was made and the node reports another network than the expected one, `Dial`
  -- closes the connection and returns `ErrWrongChain`.
  dial_wrong_chain :
      (o : ClientOptions) (s s1 s2 : S) (got : ℕ)
      → o.expected_chain ≢ 0
      → node.connect o.rpc_url s ≡ (ok tt, s1)
      → client_chain_id node (with_defaults o) s1 ≡ (ok got, s2)
      → got ≢ o.expected_chain
      → (e : Error) × (dial node o s ≡ (err e, node.disconnect s2)) × (is e wrong_chain ≡ true)
  unfolding dial verify_network with_defaults
  dial_wrong_chain o s s1 s2 got h c i n = (mismatch node got o.expected_chain, ground arith, refl)
