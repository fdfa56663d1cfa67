-- ===== src/Postgres/SyncState.antt =====
-- syncstate.go: the repository of chain progress.
pub mod Progress
use hoodalpha.Prelude.{if◌then◌else◌, find, ℕ, Bool, Option, none, some, List, [], ◌∷◌}
use hoodalpha.Prelude.Int.{ℤ, pos, leb_ℤ, ltb_ℤ, eqb_ℤ, to_int64, to_word64}
use hoodalpha.Go.Text.{Text, codes}
use hoodalpha.Go.Error.{new, wrap, Result, ok, err}
use hoodalpha.Go.Exec.{Exec, pure, lift, wrapping, get, modify, ◌>>=◌, ◌>>◌}
use hoodalpha.Domain.Address.{parse_hash}
use hoodalpha.Domain.Chain.{chain_name, BlockRef}
use hoodalpha.Postgres.Tables.{HeadRow, Db, statement}

abbrev pub is_chain : ℤ → HeadRow → Bool
is_chain id h = eqb_ℤ h.chain_id id

-- `ON CONFLICT (chain_id) DO UPDATE ... WHERE EXCLUDED.last_block_number > ...`
unfoldable pub upsert_head : HeadRow → List HeadRow → List HeadRow
upsert_head new_head [] = new_head ∷ []
upsert_head new_head (h ∷ hs) =
    if is_chain new_head.chain_id h
    then (if ltb_ℤ h.last_block_number new_head.last_block_number then new_head else h) ∷ hs
    else h ∷ upsert_head new_head hs

-- The CHECK constraints on the row, with an error that names the one that fails. That of the hash holds
-- of every hash that `ParseHash` gives.
unfoldable pub head_constraints : ℤ → ℤ → Result Unit
head_constraints chain_id number =
    if leb_ℤ chain_id (pos 0)
    then err (new (codes "chain_sync_state_chain_id_positive"))
    else if ltb_ℤ number (pos 0)
    then err (new (codes "chain_sync_state_block_number_nonneg"))
    else ok tt

-- `SaveHead`
unfoldable pub save_head : ℕ → Text → BlockRef → Exec Db Unit
unfolding statement head_constraints
save_head chain_id chain_name block = do
  hash ← wrapping (wrap (codes "save head")) (lift (parse_hash block.hash))
  wrapping (wrap (codes "save head")) statement
  wrapping (wrap (codes "save head"))
      (lift (head_constraints (to_int64 chain_id) (to_int64 block.number)))
  modify (λ d. record d {
    heads =
        upsert_head
          (record {
            chain_id = to_int64 chain_id;
            chain_name = chain_name;
            last_block_number = to_int64 block.number;
            last_block_hash = hash;
            last_block_time = block.time;
          })
          d.heads;
  })

-- The columns that `LoadHead` reads; the parent hash is not stored.
abbrev pub head_ref : HeadRow → BlockRef
head_ref h = record {
  number = to_word64 h.last_block_number;
  hash = h.last_block_hash;
  parent_hash = [];
  time = h.last_block_time;
}

-- `LoadHead`: none where no head was recorded yet.
unfoldable pub load_head : ℕ → Exec Db (Option BlockRef)
unfolding statement
load_head chain_id = do
  wrapping (wrap (codes "load head")) statement
  db ← get
  elim (find (is_chain (to_int64 chain_id)) db.heads) [
    | none ↦ pure none
    | some h ↦ pure (some (head_ref h))
  ]
