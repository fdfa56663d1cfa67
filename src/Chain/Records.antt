-- ===== src/Chain/Records.antt =====
-- The records of internal/chain/client.go and their conversion from those of go-ethereum. A
-- `common.Hash` and a `common.Address` are held as the text of their `Hex()`.
pub mod Canonical
use hoodalpha.Prelude.{if◌then◌else◌, ℕ, ◌%◌, ◌^◌, Bool, Option, none, some, List, [], map}
use hoodalpha.Prelude.Int.{ℤ, to_int64}
use hoodalpha.Go.Text.{Text}
use hoodalpha.Go.Error.{Result, ok, err}
use hoodalpha.Go.Time.{unix_time}
use hoodalpha.Domain.Address.{Address, Hash, parse_address, parse_hash, is_zero_address}
use hoodalpha.Domain.Chain.{BlockRef}
use hoodalpha.Domain.Wei.{Wei, new_wei}

-- The parts of `types.Header`, `types.Transaction`, `types.Receipt` and `types.Log` that are read.
pub record RawHeader : Type 0 where
  pub number : ℕ
  pub hash : Text
  pub parent_hash : Text
  pub time : ℕ

pub record RawTransaction : Type 0 where
  pub hash : Text
  pub chain_id : ℤ
  pub to : Option Text
  pub value : Option ℤ
  pub nonce : ℕ
  pub gas : ℕ
  pub gas_price : Option ℤ
  pub data_bytes : Text

pub record RawLog : Type 0 where
  pub address : Text
  pub topics : List Text
  pub data_bytes : Text
  pub block_number : ℕ
  pub tx_hash : Text
  pub index : ℕ
  pub removed : Bool

pub record RawReceipt : Type 0 where
  pub tx_hash : Text
  pub status : ℕ
  pub block_number : ℕ
  pub block_hash : Text
  pub gas_used : ℕ
  pub effective_gas_price : Option ℤ
  pub contract_address : Text
  pub logs : List RawLog

-- `Transaction`
pub record Transaction : Type 0 where
  pub hash : Hash
  pub from : Address
  pub to : Option Address
  pub value : Wei
  pub nonce : ℕ
  pub gas : ℕ
  pub gas_price : Option ℤ
  pub data_bytes : Text
  pub pending : Bool

-- `Log`
pub record Log : Type 0 where
  pub address : Address
  pub topics : List Hash
  pub data_bytes : Text
  pub block_number : ℕ
  pub tx_hash : Hash
  pub log_index : ℕ
  pub removed : Bool

-- `Receipt`
pub record Receipt : Type 0 where
  pub tx_hash : Hash
  pub status : ℕ
  pub block_number : ℕ
  pub block_hash : Hash
  pub gas_used : ℕ
  pub effective_gas_price : Option ℤ
  pub contract_address : Option Address
  pub logs : List Log

-- `headerToRef`
unfoldable pub header_to_ref : RawHeader → BlockRef
unfolding unix_time
header_to_ref h = record {
  number = h.number % 2 ^ 64;
  hash = h.hash;
  parent_hash = h.parent_hash;
  time = unix_time (to_int64 h.time);
}

-- The value of a parse whose error is dropped: the empty text if there was one.
abbrev pub parsed_or_empty : Result Text → Text
parsed_or_empty (ok t) = t
parsed_or_empty (err _) = []

-- The value of a parse, and the text as it was if there was an error.
abbrev pub parsed_or : Text → Result Text → Text
parsed_or old (ok t) = t
parsed_or old (err _) = old

-- `convertLog`
unfoldable pub convert_log : RawLog → Log
convert_log l = record {
  address = parsed_or_empty (parse_address l.address);
  topics = map (λ t. parsed_or_empty (parse_hash t)) l.topics;
  data_bytes = l.data_bytes;
  block_number = l.block_number;
  tx_hash = parsed_or_empty (parse_hash l.tx_hash);
  log_index = l.index;
  removed = l.removed;
}

abbrev pub normal_hash : Hash → Hash
normal_hash h = parsed_or h (parse_hash h)

abbrev pub normal_address : Address → Address
normal_address a = parsed_or a (parse_address a)

-- A pointer to an address: nil stays nil.
abbrev pub normal_pointer : Option Address → Option Address
normal_pointer none = none
normal_pointer (some a) = some (normal_address a)

-- `normaliseTx`
unfoldable pub normalise_tx : Transaction → Transaction
normalise_tx t = record t {
  hash = normal_hash t.hash;
  from = normal_address t.from;
  to = normal_pointer t.to;
}

-- `normaliseReceipt`
unfoldable pub normalise_receipt : Receipt → Receipt
normalise_receipt r = record r {
  tx_hash = normal_hash r.tx_hash;
  block_hash = normal_hash r.block_hash;
  contract_address = normal_pointer r.contract_address;
}

-- The `Transaction` that `TransactionByHash` builds behind the sender.
unfoldable pub transaction_of : RawTransaction → Text → Bool → Transaction
unfolding normalise_tx new_wei
transaction_of tx sender pending = normalise_tx (record {
  hash = tx.hash;
  from = sender;
  to = tx.to;
  value = new_wei tx.value;
  nonce = tx.nonce;
  gas = tx.gas;
  gas_price = tx.gas_price;
  data_bytes = tx.data_bytes;
  pending = pending;
})

-- The `Receipt` that `ReceiptByHash` builds: the zero address is no contract.
unfoldable pub receipt_of : RawReceipt → Receipt
unfolding normalise_receipt convert_log is_zero_address
receipt_of r = normalise_receipt (record {
  tx_hash = r.tx_hash;
  status = r.status;
  block_number = r.block_number % 2 ^ 64;
  block_hash = r.block_hash;
  gas_used = r.gas_used;
  effective_gas_price = r.effective_gas_price;
  contract_address = if is_zero_address r.contract_address then none else some r.contract_address;
  logs = map convert_log r.logs;
})
