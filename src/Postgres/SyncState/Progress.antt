-- ===== src/Postgres/SyncState/Progress.antt =====
-- How the stored head of a chain moves.
use hoodalpha.Prelude.{
  if◌then◌else◌, Bool-cases, find, ℕ, ◌≡◌, ◌∙◌, inl, inr, Option, none, some, List, [], ◌∷◌, arith,
}
use hoodalpha.Prelude.Int.{ℤ, ◌≤ℤ◌, ltb_ℤ, eqb_ℤ, eqb_ℤ-refl, to_int64}
use hoodalpha.Go.Text.{Text}
use hoodalpha.Go.Error.{Error, ok, err, Result-cases}
use hoodalpha.Domain.Address.{Hash, parse_hash}
use hoodalpha.Domain.Chain.{BlockRef}
use hoodalpha.Postgres.Tables.{HeadRow, Db}
use hoodalpha.Postgres.SyncState.{is_chain, upsert_head, save_head}

-- The head that is stored for a chain.
abbrev pub stored_head : ℕ → Db → Option HeadRow
stored_head chain_id db = find (is_chain (to_int64 chain_id)) db.heads

-- The greater of two heads by block number; the older observation wins a tie.
abbrev pub later_head : Option HeadRow → HeadRow → HeadRow
later_head none h = h
later_head (some old) h = if ltb_ℤ old.last_block_number h.last_block_number then h else old

find-upsert_head :
    (h : HeadRow) (id : ℤ) (hs : List HeadRow)
    → find (is_chain id) (upsert_head h hs) ≡ (
        if eqb_ℤ h.chain_id id
        then some (later_head (find (is_chain id) hs) h)
        else find (is_chain id) hs)
unfolding upsert_head
find-upsert_head h id [] = ground arith
find-upsert_head h id (g ∷ hs) = ground (arith, find-upsert_head h id hs)

-- The head that `SaveHead` writes for a block whose hash is read as a canonical text.
abbrev pub head_of : ℕ → Text → BlockRef → Hash → HeadRow
head_of chain_id name block hash = record {
  chain_id = to_int64 chain_id;
  chain_name = name;
  last_block_number = to_int64 block.number;
  last_block_hash = hash;
  last_block_time = block.time;
}

-- A `SaveHead` that fails has changed no head.
pub save_head_failed :
    (chain_id : ℕ) (name : Text) (block : BlockRef) (db : Db) (e : Error)
    → (save_head chain_id name block db).0 ≡ err e
    → (save_head chain_id name block db).1.heads ≡ db.heads
unfolding save_head
save_head_failed chain_id name block db e h = ground arith

-- A `SaveHead` that succeeds was given a valid hash. It has stored, for its chain, the later of the old
-- head and the new one, and has left the head of every other chain.
pub save_head_ok :
    (chain_id other : ℕ) (name : Text) (block : BlockRef) (db : Db)
    → (save_head chain_id name block db).0 ≡ ok tt
    → (hash : Hash) × (parse_hash block.hash ≡ ok hash)
      × (stored_head other (save_head chain_id name block db).1 ≡ (
          if eqb_ℤ (to_int64 chain_id) (to_int64 other)
          then some (later_head (stored_head other db) (head_of chain_id name block hash))
          else stored_head other db))
unfolding save_head
save_head_ok chain_id other name block db done = elim (Result-cases (parse_hash block.hash)) [
  | inl (hash, e) ↦ (
    hash,
    e,
    ground (arith, find-upsert_head (head_of chain_id name block hash) (to_int64 other) db.heads),
  )
  | inr (f, e) ↦ absurd (ground arith)
]

-- One observation of a head.
pub record Observation : Type 0 where
  pub chain_id : ℕ
  pub chain_name : Text
  pub block : BlockRef

-- Observations saved one after another, those that fail included.
abbrev pub save_all : List Observation → Db → Db
save_all [] db = db
save_all (o ∷ os) db = save_all os (save_head o.chain_id o.chain_name o.block db).1

-- A head is stored, and its block number is at least the given one.
abbrev pub Reached : ℕ → ℤ → Db → Type 0
Reached chain_id n db =
    (h : HeadRow) × (stored_head chain_id db ≡ some h) × (n ≤ℤ h.last_block_number)

later_head-le :
    (old : Option HeadRow) (h : HeadRow)
    → h.last_block_number ≤ℤ (later_head old h).last_block_number
later_head-le none h = omega arith
later_head-le (some g) h = ground arith

Reached-here :
    (chain_id : ℕ) (name : Text) (block : BlockRef) (db : Db)
    → (save_head chain_id name block db).0 ≡ ok tt
    → Reached chain_id (to_int64 block.number) (save_head chain_id name block db).1
Reached-here chain_id name block db done =
    let (hash, _, q) = save_head_ok chain_id chain_id name block db done in
    let observed : HeadRow = head_of chain_id name block hash in
    (
      later_head (stored_head chain_id db) observed,
      rw (eqb_ℤ-refl (to_int64 chain_id)) at q,
      later_head-le (stored_head chain_id db) observed,
    )

le-later_head :
    (n : ℤ) (old h : HeadRow)
    → n ≤ℤ old.last_block_number
    → n ≤ℤ (later_head (some old) h).last_block_number
le-later_head n old h le = ground arith

Reached-save_head :
    (chain_id : ℕ) (n : ℤ) (o : Observation) (db : Db)
    → Reached chain_id n db
    → Reached chain_id n (save_head o.chain_id o.chain_name o.block db).1
Reached-save_head chain_id n o db (h, e, le) =
    elim (Result-cases (save_head o.chain_id o.chain_name o.block db).0) [
      | inr (f, failed) ↦
          (h, rw (save_head_failed o.chain_id o.chain_name o.block db f failed) e, le)
      | inl (tt, done) ↦
          let (hash, _, q) = save_head_ok o.chain_id chain_id o.chain_name o.block db done in
          let observed : HeadRow = head_of o.chain_id o.chain_name o.block hash in
          elim (Bool-cases (eqb_ℤ (to_int64 o.chain_id) (to_int64 chain_id))) [
            | inl own ↦
                (later_head (some h) observed, rw (own, e) at q, le-later_head n h observed le)
            | inr foreign ↦ (h, (rw foreign at q) ∙ e, le)
          ]
    ]

Reached-save_all :
    (chain_id : ℕ) (n : ℤ) (os : List Observation) (db : Db)
    → Reached chain_id n db
    → Reached chain_id n (save_all os db)
Reached-save_all chain_id n [] db h = h
Reached-save_all chain_id n (o ∷ os) db h =
    Reached-save_all chain_id n os (save_head o.chain_id o.chain_name o.block db).1
      (Reached-save_head chain_id n o db h)

-- Once a `SaveHead` has succeeded, the stored head of its chain stays at or above that block, whatever
-- observations of whatever chains are saved behind it, in any order, replayed or failing.
pub save_head-Reached :
    (chain_id : ℕ) (name : Text) (block : BlockRef) (later : List Observation) (db : Db)
    → (save_head chain_id name block db).0 ≡ ok tt
    → Reached chain_id (to_int64 block.number) (save_all later (save_head chain_id name block db).1)
save_head-Reached chain_id name block later db done =
    Reached-save_all chain_id (to_int64 block.number) later (save_head chain_id name block db).1
      (Reached-here chain_id name block db done)
