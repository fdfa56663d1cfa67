-- ===== src/Domain/Chain.antt =====
-- Networks and blocks of internal/domain/chain.go.
use hoodalpha.Prelude.{◌==◌, if◌then◌else◌, ℕ, Bool, true, ◌++◌}
use hoodalpha.Prelude.Int.{ltb_ℤ}
use hoodalpha.Go.Text.{Text, codes, decimal}
use hoodalpha.Go.Time.{Time, Duration, is_zero_time, since}
use hoodalpha.Domain.Address.{Hash}

abbrev pub mainnet : ℕ
mainnet = 4663

abbrev pub testnet : ℕ
testnet = 46630

-- `ChainName`
unfoldable pub chain_name : ℕ → Text
chain_name id =
    if id == mainnet
    then codes "robinhood-mainnet"
    else if id == testnet
    then codes "robinhood-testnet"
    else codes "chain-" ++ decimal id

-- `BlockRef`
pub record BlockRef : Type 0 where
  pub number : ℕ
  pub hash : Hash
  pub parent_hash : Hash
  pub time : Time

-- `BlockRef.IsStale`
unfoldable pub is_stale : BlockRef → Time → Duration → Bool
is_stale b now max_age = if is_zero_time b.time then true else ltb_ℤ max_age (since now b.time)
