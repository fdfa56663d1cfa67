-- ===== src/Chain/Client.antt =====
-- internal/chain/client.go: `Client`, the reader of the chain with retries and a limit on the time of
-- each call.
pub mod Network
pub mod Lookups
use hoodalpha.Prelude.{
  ltb, ◌==◌, if◌then◌else◌, ℕ, ◌*◌, ◌^◌, Bool, Option, none, some, List, [], ◌∷◌, ◌++◌, map,
}
use hoodalpha.Prelude.Int.{ℤ, pos, negsuc, leb_ℤ}
use hoodalpha.Go.Text.{Text, codes, decimal, decimal_ℤ}
use hoodalpha.Go.Error.{
  wrong_chain, chain_not_found, ethereum_not_found, Error, variable, new, wrap, tagged, is, Result,
  ok, err,
}
use hoodalpha.Go.Exec.{Exec, pure, lift, wrapping, ◌>>=◌, ◌>>◌}
use hoodalpha.Go.Time.{Duration, second}
use hoodalpha.Domain.Address.{Address, Hash, parse_address}
use hoodalpha.Domain.Chain.{chain_name, BlockRef}
use hoodalpha.Domain.Wei.{Wei, new_wei}
use hoodalpha.Chain.Retry.{Runtime, RetryPolicy, retry_do}
use hoodalpha.Chain.Records.{
  RawHeader, RawTransaction, RawLog, RawReceipt, Transaction, Log, Receipt, header_to_ref,
  convert_log, transaction_of, receipt_of,
}

-- `ethereum.FilterQuery`
pub record FilterQuery : Type 0 where
  pub from_block : Option ℕ
  pub to_block : Option ℕ
  pub addresses : List Text
  pub topics : List (List Text)

-- What the client calls of go-ethereum: the connection, the requests, each within a time limit, the
-- recovery of a sender, and `HexToHash` and `HexToAddress`.
pub record Node (S : Type 0) : Type 0 where
  pub runtime : Runtime S
  pub connect : Text → Exec S Unit
  pub disconnect : S → S
  pub eth_chain_id : Duration → Exec S ℤ
  pub header_by_number : Duration → Option ℕ → Exec S RawHeader
  pub raw_transaction : Duration → Text → Exec S (RawTransaction × Bool)
  pub transaction_receipt : Duration → Text → Exec S RawReceipt
  pub raw_balance : Duration → Text → Option ℕ → Exec S (Option ℤ)
  pub raw_logs : Duration → FilterQuery → Exec S (List RawLog)
  pub recover_sender : RawTransaction → Result Text
  pub hex_to_hash : Text → Text
  pub hex_to_address : Text → Text

-- `LogQuery`
pub record LogQuery : Type 0 where
  pub from_block : Option ℕ
  pub to_block : Option ℕ
  pub addresses : List Address
  pub topics : List (List Hash)

-- `Options`
pub record ClientOptions : Type 0 where
  pub rpc_url : Text
  pub expected_chain : ℕ
  pub request_timeout : Duration
  pub max_retries : ℤ
  pub retry_backoff : Duration

-- `chain.ErrNotFound`
abbrev pub err_chain_not_found : Error
err_chain_not_found = variable chain_not_found (codes "not found")

-- `domain.ErrWrongChain`
abbrev pub err_wrong_chain : Error
err_wrong_chain = variable wrong_chain (codes "chain id mismatch")

-- The default of `Dial`.
unfoldable pub with_defaults : ClientOptions → ClientOptions
with_defaults o = record o {
  request_timeout =
      if leb_ℤ o.request_timeout (pos 0) then pos (10 * second) else o.request_timeout;
}

-- What a lookup makes of `ethereum.NotFound`.
abbrev pub not_found_as : Error → Error
not_found_as e = if is e ethereum_not_found then err_chain_not_found else e

-- The loop of `FilterLogs` over the addresses of the query.
unfoldable pub query_addresses : (Text → Text) → List Address → Result (List Text)
query_addresses hex [] = ok []
query_addresses hex (a ∷ rest) = elim (parse_address a) [
  | err e ↦ err e
  | ok parsed ↦ elim (query_addresses hex rest) [
    | err e ↦ err e
    | ok parsed_rest ↦ ok (hex parsed ∷ parsed_rest)
  ]
]

module _ {S : Type 0} (node : Node S) (o : ClientOptions) where
  abbrev pub retry_policy : RetryPolicy
  retry_policy = record { max_retries = o.max_retries; backoff = o.retry_backoff }

  -- `call`
  unfoldable pub call : {A : Type 0} → (Duration → Exec S A) → Exec S A
  call fn = retry_do node.runtime retry_policy (fn o.request_timeout)

  -- `ChainID`
  unfoldable pub client_chain_id : Exec S ℕ
  client_chain_id = do id ← call node.eth_chain_id; lift (in_range id)
    where
      in_range : ℤ → Result ℕ
      in_range (pos n) =
          if ltb n (2 ^ 64)
          then ok n
          else err (new (codes "chain id " ++ decimal_ℤ (pos n) ++ codes " out of range"))
      in_range (negsuc n) =
          err (new (codes "chain id " ++ decimal_ℤ (negsuc n) ++ codes " out of range"))

  -- `headerRef`
  unfoldable pub header_ref : Option ℕ → Exec S BlockRef
  header_ref number = do
    h ← wrapping not_found_as (call (λ limit. node.header_by_number limit number))
    pure (header_to_ref h)

  -- `LatestBlock`
  unfoldable pub client_latest_block : Exec S BlockRef
  client_latest_block = header_ref none

  -- `BlockByNumber`
  unfoldable pub block_by_number : ℕ → Exec S BlockRef
  block_by_number number = header_ref (some number)

  -- `TransactionByHash`
  unfoldable pub transaction_by_hash : Hash → Exec S Transaction
  transaction_by_hash h = do
    found ← wrapping not_found_as (call (λ limit. node.raw_transaction limit (node.hex_to_hash h)))
    sender ← wrapping (wrap (codes "recover sender")) (lift (node.recover_sender found.0))
    pure (transaction_of found.0 sender found.1)

  -- `ReceiptByHash`
  unfoldable pub receipt_by_hash : Hash → Exec S Receipt
  receipt_by_hash h = do
    r ← wrapping not_found_as (call (λ limit. node.transaction_receipt limit (node.hex_to_hash h)))
    pure (receipt_of r)

  -- `BalanceAt`
  unfoldable pub client_balance_at : Address → Option ℕ → Exec S Wei
  client_balance_at a number = do
    parsed ← lift (parse_address a)
    balance ← call (λ limit. node.raw_balance limit (node.hex_to_address parsed) number)
    pure (new_wei balance)

  -- `FilterLogs`
  unfoldable pub filter_logs : LogQuery → Exec S (List Log)
  filter_logs q = do
    addresses ← lift (query_addresses node.hex_to_address q.addresses)
    raw ← call (λ limit. node.raw_logs limit (record {
      from_block = q.from_block;
      to_block = q.to_block;
      addresses = addresses;
      topics = map (map node.hex_to_hash) q.topics;
    }))
    pure (map convert_log raw)

module _ {S : Type 0} (node : Node S) where
  -- The end of `Dial` on an error: the connection is closed.
  abbrev pub refused : Error → Exec S ClientOptions
  refused e s = (err e, node.disconnect s)

  abbrev pub mismatch : ℕ → ℕ → Error
  mismatch got expected = tagged err_wrong_chain (
      codes "node reports "
      ++ decimal got
      ++ codes " ("
      ++ chain_name got
      ++ codes "), expected "
      ++ decimal expected
      ++ codes " ("
      ++ chain_name expected
      ++ codes ")")

  -- The part of `Dial` behind the connection.
  unfoldable pub verify_network : ClientOptions → Exec S ClientOptions
  verify_network o s =
      if o.expected_chain == 0
      then (ok o, s)
      else let (r, s1) = client_chain_id node o s in
        elim r [
          | err e ↦ refused (wrap (codes "verify chain id") e) s1
          | ok got ↦
              if got == o.expected_chain
              then (ok o, s1)
              else refused (mismatch got o.expected_chain) s1
        ]

  -- `Dial`: the client is its options.
  unfoldable pub dial : ClientOptions → Exec S ClientOptions
  dial o = do
    wrapping (wrap (codes "dial rpc")) (node.connect o.rpc_url)
    verify_network (with_defaults o)
