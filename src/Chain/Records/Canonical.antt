-- ===== src/Chain/Records/Canonical.antt =====
-- Canonical addresses and hashes in what the client returns.
use hoodalpha.Prelude.{
  if◌then◌else◌, All, All-map_of, ℕ, ◌≡◌, Bool, true, false, Option, none, some, List, map,
}
use hoodalpha.Go.Text.{Text}
use hoodalpha.Domain.Address.{matches_hex, parse_address, parse_hash, is_zero_address}
use hoodalpha.Domain.Address.Canonical.{IsCanonical, parse_address_of_match, parse_hash_of_match}
use hoodalpha.Chain.Records.{
  RawTransaction, RawLog, RawReceipt, Transaction, Log, Receipt, parsed_or_empty, convert_log,
  normal_hash, normal_address, normal_pointer, normalise_tx, normalise_receipt, transaction_of,
  receipt_of,
}

-- What `Hex()` returns: `0x` and that many hexadecimal digits, in either case.
abbrev pub IsHex : ℕ → Text → Type 0
IsHex n t = matches_hex n t ≡ true

-- The hexadecimal texts of a log that a node returned, and the canonical texts of a log.
abbrev pub IsRawLog : RawLog → Type 0
IsRawLog l = IsHex 40 l.address × IsHex 64 l.tx_hash × All (IsHex 64) l.topics

abbrev pub IsCanonicalLog : Log → Type 0
IsCanonicalLog l =
    IsCanonical 40 l.address × IsCanonical 64 l.tx_hash × All (IsCanonical 64) l.topics

-- A pointer to an address: nil, or one of a kind.
abbrev pub Pointed : (Text → Type 0) → Option Text → Type 0
Pointed P none = Unit
Pointed P (some a) = P a

abbrev pub IsRawReceipt : RawReceipt → Type 0
IsRawReceipt r =
    IsHex 64 r.tx_hash × IsHex 64 r.block_hash × IsHex 40 r.contract_address × All IsRawLog r.logs

abbrev pub IsCanonicalReceipt : Receipt → Type 0
IsCanonicalReceipt r =
    IsCanonical 64 r.tx_hash
    × IsCanonical 64 r.block_hash
    × Pointed (IsCanonical 40) r.contract_address
    × All IsCanonicalLog r.logs

abbrev pub IsCanonicalTransaction : Transaction → Type 0
IsCanonicalTransaction t =
    IsCanonical 64 t.hash × IsCanonical 40 t.from × Pointed (IsCanonical 40) t.to

parsed_address : (t : Text) → IsHex 40 t → IsCanonical 40 (parsed_or_empty (parse_address t))
parsed_address t h = let (e, c) = parse_address_of_match t h in rw e c

parsed_hash : (t : Text) → IsHex 64 t → IsCanonical 64 (parsed_or_empty (parse_hash t))
parsed_hash t h = let (e, c) = parse_hash_of_match t h in rw e c

normal_address-IsCanonical : (t : Text) → IsHex 40 t → IsCanonical 40 (normal_address t)
normal_address-IsCanonical t h = let (e, c) = parse_address_of_match t h in rw e c

normal_hash-IsCanonical : (t : Text) → IsHex 64 t → IsCanonical 64 (normal_hash t)
normal_hash-IsCanonical t h = let (e, c) = parse_hash_of_match t h in rw e c

normal_pointer-IsCanonical :
    (o : Option Text) → Pointed (IsHex 40) o → Pointed (IsCanonical 40) (normal_pointer o)
normal_pointer-IsCanonical none h = tt
normal_pointer-IsCanonical (some a) h = normal_address-IsCanonical a h

convert_log-IsCanonical : (l : RawLog) → IsRawLog l → IsCanonicalLog (convert_log l)
unfolding convert_log
convert_log-IsCanonical l (a, h, t) = (
  parsed_address l.address a,
  parsed_hash l.tx_hash h,
  All-map_of (IsCanonical 64) (IsHex 64) (λ t. parsed_or_empty (parse_hash t)) l.topics parsed_hash
      t,
)

pub convert_logs-IsCanonical :
    (logs : List RawLog) → All IsRawLog logs → All IsCanonicalLog (map convert_log logs)
convert_logs-IsCanonical logs h =
    All-map_of IsCanonicalLog IsRawLog convert_log logs convert_log-IsCanonical h

-- Every address and hash of a transaction is canonical.
pub transaction_of-IsCanonical :
    (tx : RawTransaction) (sender : Text) (pending : Bool)
    → IsHex 64 tx.hash
    → IsHex 40 sender
    → Pointed (IsHex 40) tx.to
    → IsCanonicalTransaction (transaction_of tx sender pending)
unfolding transaction_of normalise_tx
transaction_of-IsCanonical tx sender pending h s t = (
  normal_hash-IsCanonical tx.hash h,
  normal_address-IsCanonical sender s,
  normal_pointer-IsCanonical tx.to t,
)

contract_pointer :
    (t : Text) (z : Bool)
    → IsHex 40 t
    → Pointed (IsCanonical 40) (normal_pointer (if z then none else some t))
contract_pointer t true h = tt
contract_pointer t false h = normal_address-IsCanonical t h

-- Every address and hash of a receipt and of its logs is canonical.
pub receipt_of-IsCanonical : (r : RawReceipt) → IsRawReceipt r → IsCanonicalReceipt (receipt_of r)
unfolding receipt_of normalise_receipt
receipt_of-IsCanonical r (h, b, c, logs) = (
  normal_hash-IsCanonical r.tx_hash h,
  normal_hash-IsCanonical r.block_hash b,
  contract_pointer r.contract_address (is_zero_address r.contract_address) c,
  convert_logs-IsCanonical r.logs logs,
)
