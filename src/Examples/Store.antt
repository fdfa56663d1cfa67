-- ===== src/Examples/Store.antt =====
-- The repositories and the use cases on a small database.
use hoodalpha.Prelude.{
  ◌==◌, if◌then◌else◌, ℕ, ◌+◌, ◌≡◌, refl, ◌⊎◌, true, false, none, some, [], ◌∷◌, arith,
}
use hoodalpha.Prelude.Int.{pos, to_int64}
use hoodalpha.Go.Text.{Text, codes, text_eq, is_space, trim_space, lower, to_lower, is_hex_digit}
use hoodalpha.Go.Error.{Error, new, ok, err}
use hoodalpha.Go.Float.{units, literal, flt, fle}
use hoodalpha.Domain.Address.{matches_hex, parse_address, parse_hash, is_zero_address}
use hoodalpha.Domain.Chain.{BlockRef}
use hoodalpha.Domain.User.{user_active, User}
use hoodalpha.Domain.Wallet.{
  err_wallet_not_owned, owner, is_valid_role, pending, Wallet, pending_wallet, new_wallet,
}
use hoodalpha.Domain.Policy.{WalletPolicy, validate}
use hoodalpha.Postgres.Tables.{Db, Postgres, statement, draw_uuid}
use hoodalpha.Postgres.Wallets.{new_row, get_wallet, row_constraints, link_rows, link}
use hoodalpha.Postgres.Wallets.Link.{Linked, link_fails}
use hoodalpha.Postgres.SyncState.{save_head}
use hoodalpha.Postgres.SyncState.Progress.{save_all, Reached, save_head-Reached}
use hoodalpha.App.Ports.{record_audit}
use hoodalpha.App.Wallets.{
  LinkRequest, link_wallet, verify_wallet, get_view, change_policy, disable_wallet,
}
use hoodalpha.App.Wallets.Access.{looked_up, foreign_wallet}
use hoodalpha.System.{World, chain_node, wallet_service}
use hoodalpha.System.Linking.{link_trading_off}
use hoodalpha.System.Verification.{verify_no_return}
use hoodalpha.Examples.Rules.{lower_case, limits}
use hoodalpha.Postgres.Transactions.{SameTables}
use hoodalpha.Postgres.Wallets.Keyed.{Keyed}

pub keeps_columns :
    (p q : WalletPolicy)
    → ok p ≡ ok q
    → (q.trading_enabled ≡ p.trading_enabled) × (q.wallet_id ≡ p.wallet_id)
keeps_columns p q e = ground arith

-- A server that takes every text for an identifier and keeps every value.
abbrev pub pg : Postgres
pg = record {
  is_uuid = λ _. true;
  uuid_error = λ id. new id;
  constraint_error = λ name. new (codes name);
  to_columns = λ p. ok p;
  to_columns-keeps = keeps_columns;
}

abbrev pub alice : User
alice = record { id = codes "alice"; status = user_active; created_at = pos 0; updated_at = pos 0 }

abbrev pub draft : Wallet
draft = pending_wallet (codes "alice") lower_case 4663 owner []

-- One account and nothing else; identifiers are numbered.
abbrev pub empty_db : Db
empty_db = record {
  users = alice ∷ [];
  telegram_users = [];
  wallets = [];
  policies = [];
  heads = [];
  audit_logs = [];
  faults = λ _. none;
  settled = λ _. false;
  statements = 0;
  uuids = λ n. (b'a' + n) ∷ [];
  drawn = 0;
  now = pos 1000;
}

-- The answer to the COMMIT of a `Link`, its fifth statement, is lost, but not the rows.
abbrev lossy_db : Db
lossy_db = record empty_db {
  faults = λ n. if n == 4 then some (new (codes "gone")) else none;
  settled = λ _. true;
}

unanswered : (e : Error) × ((link pg draft limits lossy_db).0 ≡ err e)
unfolding link link_rows get_wallet row_constraints statement draw_uuid validate codes literal units
    flt fle matches_hex is_hex_digit text_eq to_lower lower is_zero_address to_int64 is_valid_role
unanswered = (_, refl)

link_fails_example :
    SameTables (link pg draft limits lossy_db).1 lossy_db
    ⊎ ((row : WalletPolicy) × (stored : Wallet) × Linked pg draft limits lossy_db row stored
          (link pg draft limits lossy_db).1)
link_fails_example = link_fails pg draft limits lossy_db unanswered.0 unanswered.1

abbrev some_hash : Text
some_hash = codes "0x00000000000000000000000000000000000000000000000000000000000000ab"

abbrev block : ℕ → BlockRef
block n = record { number = n; hash = some_hash; parent_hash = []; time = pos 5 }

saved : (save_head 4663 (codes "main") (block 100) empty_db).0 ≡ ok tt
unfolding save_head parse_hash statement codes matches_hex is_hex_digit trim_space is_space to_lower
    lower to_int64
saved = refl

-- A block that is older than the stored one comes behind it.
save_head-Reached_example : Reached 4663 (to_int64 100) (
    save_all
      (record { chain_id = 4663; chain_name = codes "main"; block = block 99 } ∷ [])
      (save_head 4663 (codes "main") (block 100) empty_db).1)
save_head-Reached_example =
    save_head-Reached 4663 (codes "main") (block 100)
      (record { chain_id = 4663; chain_name = codes "main"; block = block 99 } ∷ []) empty_db saved

abbrev pub world : World
world = record {
  db = empty_db;
  chain_ids = λ _. ok 4663;
  balances = λ _ _ _. err (new []);
  calls = 0;
  scheduled = [];
  notifications = [];
  queue_faults = λ _. none;
  attempts = 0;
}

abbrev request : LinkRequest
request = record {
  user_id = codes "alice";
  address = lower_case;
  role = owner;
  label = [];
  actor_id = codes "telegram:7";
}

abbrev pub row : Wallet
row = new_row (b'a' ∷ []) (pos 1000) draft

-- The database behind a link of the wallet `row`.
abbrev pub linked_world : World
linked_world = record world { db = record empty_db { wallets = row ∷ [] } }

verify_no_return_example :
    (verify_wallet (wallet_service pg 4663 limits) chain_node (codes "b") linked_world).1.db.wallets
    ≡ linked_world.db.wallets
unfolding codes text_eq
verify_no_return_example = verify_no_return pg 4663 limits (codes "b") linked_world refl

foreign_wallet_example :
    (get_view (wallet_service pg 4663 limits) (codes "bob") (codes "a") linked_world ≡ (
      err err_wallet_not_owned,
      looked_up (wallet_service pg 4663 limits) (codes "bob") (codes "a") linked_world,
    ))
    × (change_policy
          (wallet_service pg 4663 limits)
          (codes "bob")
          (codes "a")
          limits
          (codes "telegram:8")
          linked_world
        ≡ (
          err err_wallet_not_owned,
          looked_up (wallet_service pg 4663 limits) (codes "bob") (codes "a") linked_world,
        ))
    × (disable_wallet
          (wallet_service pg 4663 limits)
          (codes "bob")
          (codes "a")
          (codes "telegram:8")
          linked_world
        ≡ (
          err err_wallet_not_owned,
          looked_up (wallet_service pg 4663 limits) (codes "bob") (codes "a") linked_world,
        ))
unfolding codes get_wallet statement text_eq
foreign_wallet_example =
    foreign_wallet (wallet_service pg 4663 limits) (codes "bob") (codes "a") linked_world row limits
      (codes "telegram:8") refl (λ e. ground arith)

link_answers :
    (stored : Wallet) × ((link_wallet (wallet_service pg 4663 limits) request world).0 ≡ ok stored)
unfolding link_wallet link statement draw_uuid get_wallet validate literal units flt fle codes
    new_wallet parse_address matches_hex is_hex_digit trim_space is_space to_lower lower text_eq
    row_constraints is_zero_address is_valid_role record_audit to_int64
link_answers = (_, refl)

link_trading_off_example :
    ((link_wallet (wallet_service pg 4663 limits) request world).1.db.wallets ≡ link_answers.0 ∷ [])
    × (link_answers.0.status ≡ pending)
    × ((p : WalletPolicy) × ((link_wallet
            (wallet_service pg 4663 limits)
            request
            world).1.db.policies
          ≡ p ∷ [])
        × (p.wallet_id ≡ link_answers.0.id)
        × (p.trading_enabled ≡ false))
link_trading_off_example =
    link_trading_off pg 4663 limits request world link_answers.0 link_answers.1
