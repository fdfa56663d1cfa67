-- ===== src/App/ChainSync.antt =====
-- internal/application/chainsync.go: `ChainSync`.
use hoodalpha.Prelude.{ℕ, Option}
use hoodalpha.Go.Text.{Text, codes}
use hoodalpha.Go.Error.{wrap}
use hoodalpha.Go.Exec.{Exec, pure, wrapping, ◌>>=◌, ◌>>◌}
use hoodalpha.Domain.Chain.{chain_name, BlockRef}

-- `SyncStateStore`
pub record SyncStateStore (S : Type 0) : Type 0 where
  pub save_head : ℕ → Text → BlockRef → Exec S Unit
  pub load_head : ℕ → Exec S (Option BlockRef)

-- `ChainProbe`
pub record ChainProbe (S : Type 0) : Type 0 where
  pub chain_id : Exec S ℕ
  pub latest_block : Exec S BlockRef

-- `ChainSync`
pub record ChainSync (S : Type 0) : Type 0 where
  pub chain : ChainProbe S
  pub store : SyncStateStore S
  pub chain_id : ℕ

module _ {S : Type 0} (sync : ChainSync S) where
  open sync use {chain, store, chain_id}

  -- `Record`
  unfoldable pub record_head : BlockRef → Exec S Unit
  record_head block =
      wrapping (wrap (codes "save head")) (store.save_head chain_id (chain_name chain_id) block)

  -- `RecordLatest`
  unfoldable pub record_latest : Exec S BlockRef
  unfolding record_head
  record_latest = do
    block ← wrapping (wrap (codes "latest block")) chain.latest_block
    record_head block
    pure block

  -- `LastSeen`
  unfoldable pub last_seen : Exec S (Option BlockRef)
  last_seen = store.load_head chain_id
