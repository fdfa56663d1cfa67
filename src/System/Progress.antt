-- ===== src/System/Progress.antt =====
-- `ChainSync` over the repository of chain progress, against its specification: a register that keeps the
-- highest block number.
use hoodalpha.Prelude.{
  ltb, if◌then◌else◌, find, All, ℕ, ◌^◌, ◌<◌, ◌≡◌, refl, ap, ◌∙◌, inl, inr, Option, none, some,
  List, [], ◌∷◌, arith,
}
use hoodalpha.Prelude.Int.{pos, eqb_ℤ-refl, to_int64}
use hoodalpha.Go.Error.{Error, ok, err, is_ok, Result-cases}
use hoodalpha.Domain.Address.{parse_hash}
use hoodalpha.Domain.Chain.{chain_name, BlockRef}
use hoodalpha.Postgres.Tables.{HeadRow, Db}
use hoodalpha.Postgres.SyncState.{is_chain, head_constraints, save_head, load_head}
use hoodalpha.Postgres.SyncState.Progress.{
  stored_head, later_head, head_of, save_head_failed, save_head_ok,
}
use hoodalpha.App.ChainSync.{SyncStateStore, ChainProbe, ChainSync, record_head}

-- The specification: none before the first block, and then the highest number so far.
abbrev pub advance : ℕ → Option ℕ → Option ℕ
advance n none = some n
advance n (some m) = some (if ltb m n then n else m)

abbrev pub advance_all : List ℕ → Option ℕ → Option ℕ
advance_all [] o = o
advance_all (n ∷ ns) o = advance_all ns (advance n o)

-- The repository as the store of the use case.
abbrev pub sync_store : SyncStateStore Db
sync_store = record { save_head = save_head; load_head = load_head }

abbrev pub sync_of : ChainProbe Db → ℕ → ChainSync Db
sync_of probe chain_id = record { chain = probe; store = sync_store; chain_id = chain_id }

-- The database shows a state of the register.
abbrev pub Shows : ℕ → Db → Option ℕ → Type 0
Shows chain_id db none = stored_head chain_id db ≡ none
Shows chain_id db (some n) =
    (h : HeadRow) × (stored_head chain_id db ≡ some h)
    × (h.last_block_number ≡ pos n)
    × (n < 2 ^ 63)

-- The number of the head that `LastSeen` returns.
abbrev pub seen_number : Option BlockRef → Option ℕ
seen_number none = none
seen_number (some b) = some b.number

module _ (probe : ChainProbe Db) (chain_id : ℕ) where
  -- `Record` for one block after another.
  abbrev pub record_all : List BlockRef → Db → Db
  record_all [] db = db
  record_all (b ∷ bs) db = record_all bs (record_head (sync_of probe chain_id) b db).1

  -- The numbers of the blocks for which `Record` returned no error.
  abbrev pub recorded_numbers : List BlockRef → Db → List ℕ
  recorded_numbers [] db = []
  recorded_numbers (b ∷ bs) db =
      let rest = recorded_numbers bs (record_head (sync_of probe chain_id) b db).1 in
      if is_ok (record_head (sync_of probe chain_id) b db).0 then b.number ∷ rest else rest

  record_head-ok :
      (b : BlockRef) (db : Db)
      → (record_head (sync_of probe chain_id) b db).0 ≡ ok tt
      → (save_head chain_id (chain_name chain_id) b db).0 ≡ ok tt
  unfolding record_head
  record_head-ok b db h = ground arith

  record_head-err :
      (b : BlockRef) (db : Db) (e : Error)
      → (record_head (sync_of probe chain_id) b db).0 ≡ err e
      → (f : Error) × ((save_head chain_id (chain_name chain_id) b db).0 ≡ err f)
  unfolding record_head
  record_head-err b db e h = elim (Result-cases (save_head chain_id (chain_name chain_id) b db).0) [
    | inl (u, r) ↦ ground arith
    | inr (f, r) ↦ (f, r)
  ]

  record_head-state :
      (b : BlockRef) (db : Db)
      → (record_head (sync_of probe chain_id) b db).1
        ≡ (save_head chain_id (chain_name chain_id) b db).1
  unfolding record_head
  record_head-state b db = refl

  later_number :
      (old h : HeadRow) (m n : ℕ)
      → old.last_block_number ≡ pos m
      → h.last_block_number ≡ pos n
      → (later_head (some old) h).last_block_number ≡ pos (if ltb m n then n else m)
  later_number old h m n e f = ground arith

  to_int64_number : (n : ℕ) → n < 2 ^ 63 → to_int64 n ≡ pos n
  unfolding to_int64
  to_int64_number n h = ground arith

  -- The table takes no number that is negative in its column.
  saved_small :
      (b : BlockRef) (db : Db)
      → b.number < 2 ^ 64
      → (save_head chain_id (chain_name chain_id) b db).0 ≡ ok tt
      → b.number < 2 ^ 63
  unfolding save_head head_constraints to_int64
  saved_small b db word done = elim (Result-cases (parse_hash b.hash)) [
    | inl (hash, e) ↦ ground arith
    | inr (f, e) ↦ ground arith
  ]

  Shows-ok :
      (b : BlockRef) (db : Db) (o : Option ℕ)
      → b.number < 2 ^ 64
      → Shows chain_id db o
      → (save_head chain_id (chain_name chain_id) b db).0 ≡ ok tt
      → Shows chain_id (save_head chain_id (chain_name chain_id) b db).1 (advance b.number o)
  Shows-ok b db none word shown done =
      let small = saved_small b db word done in
      let (hash, _, q) = save_head_ok chain_id chain_id (chain_name chain_id) b db done in
      let new_head : HeadRow = head_of chain_id (chain_name chain_id) b hash in
      (
        new_head,
        (rw (eqb_ℤ-refl (to_int64 chain_id)) at q) ∙ ap (λ o. some (later_head o new_head)) shown,
        to_int64_number b.number small,
        small,
      )
  Shows-ok b db (some m) word (old, found, number, bound) done =
      let small = saved_small b db word done in
      let (hash, _, q) = save_head_ok chain_id chain_id (chain_name chain_id) b db done in
      let new_head : HeadRow = head_of chain_id (chain_name chain_id) b hash in
      (
        later_head (some old) new_head,
        (rw (eqb_ℤ-refl (to_int64 chain_id)) at q) ∙ ap (λ o. some (later_head o new_head)) found,
        later_number old new_head m b.number number (to_int64_number b.number small),
        ground arith,
      )

  Shows-heads :
      (o : Option ℕ) (db next : Db)
      → next.heads ≡ db.heads
      → Shows chain_id db o
      → Shows chain_id next o
  Shows-heads none db next kept h = ap (find (is_chain (to_int64 chain_id))) kept ∙ h
  Shows-heads (some n) db next kept (h, found, number, bound) =
      (h, ap (find (is_chain (to_int64 chain_id))) kept ∙ found, number, bound)

  -- Blocks that are recorded one after another, in any order and with failures between, leave the
  -- database at what the specification makes of those for which `Record` returned no error.
  pub record_all_refines :
      (bs : List BlockRef) (db : Db) (o : Option ℕ)
      → All (λ b. b.number < 2 ^ 64) bs
      → Shows chain_id db o
      → Shows chain_id (record_all bs db) (advance_all (recorded_numbers bs db) o)
  unfolding record_head
  record_all_refines [] db o small h = h
  record_all_refines (b ∷ bs) db o (small, rest) h =
      elim (Result-cases (save_head chain_id (chain_name chain_id) b db).0) [
        | inl (u, done) ↦ rw done (
            record_all_refines bs (save_head chain_id (chain_name chain_id) b db).1
              (advance b.number o) rest (Shows-ok b db o small h done))
        | inr (e, failed) ↦ rw failed (
            record_all_refines bs (save_head chain_id (chain_name chain_id) b db).1 o rest (
              Shows-heads o db (save_head chain_id (chain_name chain_id) b db).1
                (save_head_failed chain_id (chain_name chain_id) b db e failed) h))
      ]
