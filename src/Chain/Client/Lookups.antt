-- ===== src/Chain/Client/Lookups.antt =====
-- What the lookups of the client return, and when they call the node.
use hoodalpha.Prelude.{
  All, Any, ◌≡◌, subst, inl, inr, Bool, true, false, none, List, [], ◌∷◌, map, arith,
}
use hoodalpha.Go.Text.{Text, codes}
use hoodalpha.Go.Error.{ethereum_not_found, Error, wrap, is, ok, err, is_ok, Result-cases}
use hoodalpha.Go.Exec.{Exec, pure, lift, wrapping, ◌>>=◌, bind_ok, wrapping_ok, lift_ok, pure_ok}
use hoodalpha.Go.Time.{Duration}
use hoodalpha.Domain.Address.{Address, Hash, parse_address}
use hoodalpha.Chain.Retry.{retryable, round, retry_loop, retry_do}
use hoodalpha.Chain.Retry.Bounds.{retry_do_ok}
use hoodalpha.Chain.Records.{RawTransaction, RawLog, Transaction, Log, convert_log, transaction_of}
use hoodalpha.Chain.Records.Canonical.{
  IsHex, IsRawLog, IsCanonicalLog, Pointed, IsCanonicalTransaction, convert_logs-IsCanonical,
  transaction_of-IsCanonical,
}
use hoodalpha.Chain.Client.{
  FilterQuery, Node, LogQuery, ClientOptions, err_chain_not_found, not_found_as, query_addresses,
  retry_policy, call, transaction_by_hash, filter_logs,
}

-- An address of the query does not parse.
query_addresses_bad :
    (hex : Text → Text) (addresses : List Address)
    → Any (λ a. is_ok (parse_address a) ≡ false) addresses
    → (e : Error) × (query_addresses hex addresses ≡ err e)
unfolding query_addresses
query_addresses_bad hex [] h = elim h [ ]
query_addresses_bad hex (a ∷ rest) (inl h) = elim (Result-cases (parse_address a)) [
  | inl (t, r) ↦ ground arith
  | inr (f, r) ↦ (f, ground arith)
]
query_addresses_bad hex (a ∷ rest) (inr h) =
    let (f, later) = query_addresses_bad hex rest h in
    elim (Result-cases (parse_address a)) [
      | inl (t, r) ↦ (f, ground arith)
      | inr (g, r) ↦ (g, ground arith)
    ]

module _ {S : Type 0} (node : Node S) (o : ClientOptions) where
  -- A query with an address that does not parse, wherever it stands, is refused before the node is
  -- called: nothing changes.
  filter_logs_refused :
      (q : LogQuery) (s : S)
      → Any (λ a. is_ok (parse_address a) ≡ false) q.addresses
      → (e : Error) × (filter_logs node o q s ≡ (err e, s))
  unfolding filter_logs
  filter_logs_refused q s h =
      let (f, e) = query_addresses_bad node.hex_to_address q.addresses h in (f, ground arith)

  -- What every answer of the node guarantees holds of the answer of `call`.
  call_ok :
      {A : Type 0} (fn : Duration → Exec S A) (P : A → S → Type 0)
      → ((s s1 : S) (a : A) → fn o.request_timeout s ≡ (ok a, s1) → P a s1)
      → (s s1 : S) (a : A) → call node o fn s ≡ (ok a, s1)
      → P a s1
  unfolding call
  call_ok fn P gives = retry_do_ok node.runtime (retry_policy node o) (fn o.request_timeout) P gives

  -- The node's logs are texts of `Hex()`.
  abbrev pub GivesHexLogs : Type 0
  GivesHexLogs =
      (q : FilterQuery) (s s1 : S) (logs : List RawLog)
      → node.raw_logs o.request_timeout q s ≡ (ok logs, s1)
      → All IsRawLog logs

  -- Every log that `FilterLogs` returns has a canonical address and canonical hashes.
  filter_logs-IsCanonical :
      (q : LogQuery) (s s1 : S) (logs : List Log)
      → GivesHexLogs
      → filter_logs node o q s ≡ (ok logs, s1)
      → All IsCanonicalLog logs
  unfolding filter_logs
  filter_logs-IsCanonical q s s1 logs hex h =
      let (addresses, s2, _, rest) =
        bind_ok (lift (query_addresses node.hex_to_address q.addresses)) _ s s1 logs h in
      let (raw, s3, answer, e) = bind_ok (call node o _) _ s2 s1 logs rest in
      let given =
        call_ok (λ limit. node.raw_logs limit _) (λ raw _. All IsRawLog raw)
          (λ s s1 raw. hex _ s s1 raw) s2 s3 raw answer in
      subst (All IsCanonicalLog) (pure_ok (map convert_log raw) logs s3 s1 e)
        (convert_logs-IsCanonical raw given)

  -- What the node returns of a transaction and of its sender are texts of `Hex()`.
  abbrev pub GivesHexTransactions : Type 0
  GivesHexTransactions =
      ((h : Text) (s s1 : S) (tx : RawTransaction) (pending : Bool)
        → node.raw_transaction o.request_timeout h s ≡ (ok (tx, pending), s1)
        → IsHex 64 tx.hash × Pointed (IsHex 40) tx.to)
      × ((tx : RawTransaction) (sender : Text)
          → node.recover_sender tx ≡ ok sender
          → IsHex 40 sender)

  -- Every address and hash of a transaction that `TransactionByHash` returns is canonical.
  pub transaction_by_hash-IsCanonical :
      (h : Hash) (s s1 : S) (tx : Transaction)
      → GivesHexTransactions
      → transaction_by_hash node o h s ≡ (ok tx, s1)
      → IsCanonicalTransaction tx
  unfolding transaction_by_hash
  transaction_by_hash-IsCanonical h s s1 tx (hex, sender_hex) e =
      let ask : Duration → Exec S (RawTransaction × Bool) =
        λ limit. node.raw_transaction limit (node.hex_to_hash h) in
      let recover : RawTransaction → Exec S Text =
        λ raw. wrapping (wrap (codes "recover sender")) (lift (node.recover_sender raw)) in
      let (found, s2, asked, rest) =
        bind_ok (wrapping not_found_as (call node o ask))
          (λ found. recover found.0 >>= λ sender. pure (transaction_of found.0 sender found.1)) s s1
          tx e in
      let (sender, s3, recovered, last) =
        bind_ok (recover found.0) (λ sender. pure (transaction_of found.0 sender found.1)) s2 s1 tx
          rest in
      let (hash, to) =
        call_ok ask (λ found _. IsHex 64 found.0.hash × Pointed (IsHex 40) found.0.to)
          (λ s s1 found. hex _ s s1 found.0 found.1) s s2 found
          (wrapping_ok not_found_as (call node o ask) s s2 found asked) in
      let from = sender_hex found.0 sender (
        lift_ok (node.recover_sender found.0) s2 s3 sender (
          wrapping_ok (wrap (codes "recover sender")) (lift (node.recover_sender found.0)) s2 s3
            sender recovered)) in
      subst IsCanonicalTransaction (pure_ok (transaction_of found.0 sender found.1) tx s3 s1 last)
        (transaction_of-IsCanonical found.0 sender found.1 hash from to)

  call_not_found :
      {A : Type 0} (fn : Duration → Exec S A) (s s1 : S) (e : Error)
      → node.runtime.ctx_err s ≡ none
      → fn o.request_timeout s ≡ (err e, s1)
      → is e ethereum_not_found ≡ true
      → call node o fn s ≡ (err e, s1)
  unfolding call retry_do retry_loop round retryable
  call_not_found fn s s1 e live answer missing = ground arith

  -- A transaction that the node does not know is `ErrNotFound` at the first answer: nothing is asked a
  -- second time.
  pub transaction_not_found :
      (h : Hash) (s s1 : S) (e : Error)
      → node.runtime.ctx_err s ≡ none
      → node.raw_transaction o.request_timeout (node.hex_to_hash h) s ≡ (err e, s1)
      → is e ethereum_not_found ≡ true
      → transaction_by_hash node o h s ≡ (err err_chain_not_found, s1)
  unfolding transaction_by_hash
  transaction_not_found h s s1 e live answer missing = ground (
    arith,
    call_not_found (λ limit. node.raw_transaction limit (node.hex_to_hash h)) s s1 e live answer
        missing,
  )
