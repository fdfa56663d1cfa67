-- ===== src/Postgres/Wallets.antt =====
-- wallets.go: the repository of wallets and their policies.
pub mod Link
pub mod Consistent
pub mod Keyed
pub mod Status
use hoodalpha.Prelude.{
  ◌==◌, if◌then◌else◌, any, find, keep, Bool, not, ◌&&◌, ◌||◌, Option, none, some, List, [], ◌∷◌,
  ◌++◌,
}
use hoodalpha.Prelude.Int.{pos, leb_ℤ, to_int64}
use hoodalpha.Go.Text.{Text, codes, text_eq, to_lower}
use hoodalpha.Go.Error.{new, wrap, Result, ok, err}
use hoodalpha.Go.Exec.{Exec, pure, lift, wrapping, get, modify, fail_if, ◌>>=◌, ◌>>◌}
use hoodalpha.Go.Time.{Time}
use hoodalpha.Domain.Address.{matches_hex, quote, is_zero_address}
use hoodalpha.Domain.User.{AccountId, User}
use hoodalpha.Domain.Wallet.{
  err_wallet_already_linked, is_valid_role, is_bot_role, WalletStatus, pending, active, same_status,
  is_valid_status, status_text, can_transition_to, Wallet,
}
use hoodalpha.Domain.Policy.{WalletPolicy, validate}
use hoodalpha.Postgres.Tables.{
  err_not_found, Db, Postgres, statement, draw_uuid, transaction, update_where,
}

abbrev pub has_wallet_id : Text → Wallet → Bool
has_wallet_id id w = text_eq w.id id

abbrev pub has_policy_of : Text → WalletPolicy → Bool
has_policy_of wallet_id p = text_eq p.wallet_id wallet_id

-- The key of the unique index `wallets_user_chain_address_key`.
abbrev pub same_key : Wallet → Wallet → Bool
same_key w v =
    text_eq w.user_id v.user_id && w.chain_id == v.chain_id && text_eq w.address v.address

-- The rows of the unique index `wallets_one_active_bot_per_chain`.
abbrev pub is_active_bot : Wallet → Bool
is_active_bot w = is_bot_role w.role && same_status w.status active

abbrev pub same_slot : Wallet → Wallet → Bool
same_slot w v = text_eq w.user_id v.user_id && w.chain_id == v.chain_id

-- A scan of one row or of none.
abbrev found : {A : Type 0} → Option A → Result A
found none = err err_not_found
found (some a) = ok a

-- The row that `INSERT INTO wallets` writes.
abbrev pub new_row : Text → Time → Wallet → Wallet
new_row id now w = record w {
  id = id;
  status = pending;
  verified_at = none;
  created_at = now;
  updated_at = now;
}

abbrev pub is_taken : Text → Wallet → Db → Bool
is_taken id w db = any (λ v. has_wallet_id id v || same_key w v) db.wallets

-- What an update of a status writes to a row, the trigger on `updated_at` included.
abbrev pub verified_row : Time → Time → Wallet → Wallet
verified_row at now w = record w { status = active; verified_at = some at; updated_at = now }

abbrev pub is_pending_row : Text → Wallet → Bool
is_pending_row id w = has_wallet_id id w && same_status w.status pending

-- A row that would become a second active bot wallet of its account and chain.
abbrev pub second_bot : Wallet → List Wallet → Bool
second_bot w rows =
    is_bot_role w.role
    && any (λ v. is_active_bot v && not (text_eq v.id w.id) && same_slot w v) rows

abbrev pub status_row : WalletStatus → Time → Wallet → Wallet
status_row status now w = record w {
  status = status;
  verified_at = if same_status status pending then none else w.verified_at;
  updated_at = now;
}

-- What an update of the limits writes to a row.
abbrev pub policy_row : WalletPolicy → Time → WalletPolicy → WalletPolicy
policy_row values now row = record values {
  id = row.id;
  wallet_id = row.wallet_id;
  created_at = row.created_at;
  updated_at = now;
}

module _ (pg : Postgres) where
  -- An identifier in a WHERE clause has to be a UUID.
  abbrev uuid_param : Text → Exec Db Unit
  uuid_param id = fail_if (not (pg.is_uuid id)) (pg.uuid_error id)

  -- `Get`
  unfoldable pub get_wallet : Text → Exec Db Wallet
  unfolding statement
  get_wallet id = wrapping (wrap (codes "scan wallet")) (statement >> uuid_param id) >> λ db.
      (found (find (has_wallet_id id) db.wallets), db)

  -- The CHECK constraints and the foreign key on a new row of `wallets`.
  unfoldable pub row_constraints : Wallet → List User → Result Unit
  row_constraints w users =
      if not (matches_hex 40 w.address) || not (text_eq (to_lower w.address) w.address)
      then err (pg.constraint_error "wallets_address_format")
      else if is_zero_address w.address
      then err (pg.constraint_error "wallets_address_not_zero")
      else if leb_ℤ (to_int64 w.chain_id) (pos 0)
      then err (pg.constraint_error "wallets_chain_id_positive")
      else if not (is_valid_role w.role)
      then err (pg.constraint_error "wallets_role_valid")
      else if not (any (λ u. text_eq u.id w.user_id) users)
      then err (pg.constraint_error "wallets_user_id_fkey")
      else ok tt

  -- `INSERT INTO wallets ... RETURNING id`
  insert_wallet : Wallet → Exec Db Text
  unfolding statement draw_uuid
  insert_wallet w = do
    wrapping (wrap (codes "insert wallet")) statement
    id ← draw_uuid
    db ← get
    wrapping (wrap (codes "insert wallet")) (lift (row_constraints w db.users))
    fail_if (is_taken id w db) err_wallet_already_linked
    modify (λ d. record d { wallets = new_row id d.now w ∷ d.wallets })
    pure id

  -- `INSERT INTO wallet_policies`
  insert_policy : Text → WalletPolicy → Exec Db Unit
  unfolding statement draw_uuid
  insert_policy wallet_id p = wrapping (wrap (codes "insert policy")) (do
    statement
    id ← draw_uuid
    db ← get
    row ← lift (pg.to_columns (record p { wallet_id = wallet_id }))
    fail_if (any (has_policy_of wallet_id) db.policies)
        (pg.constraint_error "wallet_policies_wallet_id_key")
    modify (λ d. record d {
      policies = record row { id = id; created_at = d.now; updated_at = d.now } ∷ d.policies;
    }))

  -- The statements of `Link` between its BEGIN and its COMMIT.
  unfoldable pub link_rows : Wallet → WalletPolicy → Exec Db Wallet
  unfolding insert_wallet insert_policy
  link_rows w p = do id ← insert_wallet w; insert_policy id p; get_wallet id

  -- `Link`
  unfoldable pub link : Wallet → WalletPolicy → Exec Db Wallet
  unfolding link_rows statement
  link w p = do
    wrapping (wrap (codes "invalid policy")) (lift (validate p))
    wrapping (wrap (codes "begin")) statement
    transaction (link_rows w p)

  -- `ORDER BY created_at DESC`
  insert_newest : Wallet → List Wallet → List Wallet
  insert_newest w [] = w ∷ []
  insert_newest w (v ∷ vs) =
      if leb_ℤ v.created_at w.created_at then w ∷ v ∷ vs else v ∷ insert_newest w vs

  sort_newest : List Wallet → List Wallet
  unfolding insert_newest
  sort_newest [] = []
  sort_newest (w ∷ ws) = insert_newest w (sort_newest ws)

  -- `ListByUser`
  unfoldable pub list_by_user : AccountId → Exec Db (List Wallet)
  unfolding statement sort_newest
  list_by_user user_id = do
    wrapping (wrap (codes "list wallets")) (statement >> uuid_param user_id)
    db ← get
    pure (sort_newest (keep (λ w. text_eq w.user_id user_id) db.wallets))

  -- `MarkVerified`: no row that matches is no error.
  unfoldable pub mark_verified : Text → Time → Exec Db Unit
  unfolding statement
  mark_verified id at = wrapping (wrap (codes "mark verified")) (do
    statement
    uuid_param id
    db ← get
    fail_if (any (λ w. is_pending_row id w && second_bot w db.wallets) db.wallets)
        (pg.constraint_error "wallets_one_active_bot_per_chain")
    modify (λ d. record d {
      wallets = update_where (is_pending_row id) (verified_row at d.now) d.wallets;
    }))

  -- `SetStatus`
  unfoldable pub set_status : Text → WalletStatus → Exec Db Unit
  unfolding statement
  set_status id status = do
    fail_if (not (is_valid_status status))
        (new (codes "invalid wallet status " ++ quote (status_text status)))
    current ← get_wallet id
    if same_status current.status status then pure tt else do
      fail_if (not (can_transition_to current.status status)) (
          new (
            codes "illegal wallet transition "
            ++ status_text current.status
            ++ codes " -> "
            ++ status_text status))
      wrapping (wrap (codes "set wallet status")) (do
        statement
        db ← get
        fail_if (same_status status active && second_bot current db.wallets)
            (pg.constraint_error "wallets_one_active_bot_per_chain")
        modify (λ d. record d {
          wallets = update_where (has_wallet_id id) (status_row status d.now) d.wallets;
        }))

  -- `GetPolicy`
  unfoldable pub get_policy : Text → Exec Db WalletPolicy
  unfolding statement
  get_policy wallet_id =
      wrapping (wrap (codes "get policy")) (statement >> uuid_param wallet_id) >> λ db.
      (found (find (has_policy_of wallet_id) db.policies), db)

  -- `UpdatePolicy`
  unfoldable pub update_policy : Text → WalletPolicy → Exec Db Unit
  unfolding statement
  update_policy wallet_id p = do
    wrapping (wrap (codes "invalid policy")) (lift (validate p))
    wrapping (wrap (codes "update policy")) (statement >> uuid_param wallet_id)
    db ← get
    fail_if (not (any (has_policy_of wallet_id) db.policies)) err_not_found
    values ← wrapping (wrap (codes "update policy")) (lift (pg.to_columns p))
    modify (λ d. record d {
      policies = update_where (has_policy_of wallet_id) (policy_row values d.now) d.policies;
    })
