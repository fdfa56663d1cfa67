-- ===== src/Postgres/Wallets/Status.antt =====
-- The invariant of the tables under `MarkVerified`, `SetStatus` and `UpdatePolicy` of wallets.go.
use hoodalpha.Prelude.{
  if◌then◌else◌, Bool-cases, All-imp, ◌+◌, ◌≡◌, refl, ◌∙◌, ◌⊎◌, inl, inr, Bool, true, Option, none,
  List, arith,
}
use hoodalpha.Go.Text.{Text}
use hoodalpha.Go.Error.{ok, is_ok, Result-cases}
use hoodalpha.Go.Time.{Time}
use hoodalpha.Domain.Wallet.{WalletStatus, pending, same_status, Wallet}
use hoodalpha.Domain.Policy.{WalletPolicy}
use hoodalpha.Postgres.Tables.{
  Db, Postgres, update_where, updated, All-update_where, Pairs-update_where, any-update_where,
}
use hoodalpha.Postgres.Wallets.{
  has_wallet_id, has_policy_of, verified_row, is_pending_row, status_row, policy_row, get_wallet,
  mark_verified, set_status, update_policy,
}
use hoodalpha.Postgres.Wallets.Consistent.{
  Checked, Apart, HasLimits, OtherWallet, Consistent, IsConsistent,
}

-- An update of rows that keeps the checks, the identifier and the key of every row.
module _ (test : Wallet → Bool) (f : Wallet → Wallet) where
  record IsHarmless : Type 0 where
    checks : (w : Wallet) → test w ≡ true → Checked w → Checked (f w)
    same_id : (w : Wallet) → (f w).id ≡ w.id
    same_user : (w : Wallet) → (f w).user_id ≡ w.user_id
    same_chain : (w : Wallet) → (f w).chain_id ≡ w.chain_id
    same_address : (w : Wallet) → (f w).address ≡ w.address

  module _ (h : IsHarmless) where
    keeps_checks : (w : Wallet) → Checked w → Checked (updated test f w)
    keeps_checks w c = elim (Bool-cases (test w)) [ inl e ↦ rw e (h.checks w e c) | inr e ↦ rw e c ]

    keeps_id : (w : Wallet) → (updated test f w).id ≡ w.id
    keeps_id w = ground (arith, h.same_id w)

    keeps_Apart : (w v : Wallet) → Apart w v → Apart (updated test f w) (updated test f v)
    keeps_Apart w v a = ground (
      arith,
      h.same_id w,
      h.same_id v,
      h.same_user w,
      h.same_user v,
      h.same_chain w,
      h.same_chain v,
      h.same_address w,
      h.same_address v,
    )

    harmless-Consistent :
        (wallets : List Wallet) (policies : List WalletPolicy)
        → Consistent wallets policies
        → Consistent (update_where test f wallets) policies
    harmless-Consistent wallets policies c = record {
      checked = All-update_where test f Checked Checked wallets keeps_checks c.checked;
      apart = Pairs-update_where test f Apart wallets keeps_Apart c.apart;
      limited =
          All-update_where test f (HasLimits policies) (HasLimits policies) wallets
            (λ w l. rw (keeps_id w) l) c.limited;
      one_policy = c.one_policy;
    }

verified-IsHarmless :
    (id : Text) (at now : Time) → IsHarmless (is_pending_row id) (verified_row at now)
unfolding same_status
verified-IsHarmless id at now = record {
  checks = λ w e (a, b, c, d, _). (a, b, c, d, λ p. cc);
  same_id = λ w. refl;
  same_user = λ w. refl;
  same_chain = λ w. refl;
  same_address = λ w. refl;
}

cleared : (b : Bool) (t : Option Time) → b ≡ true → (if b then none else t) ≡ none
cleared b t e = ground arith

status-IsHarmless :
    (id : Text) (status : WalletStatus) (now : Time)
    → IsHarmless (has_wallet_id id) (status_row status now)
status-IsHarmless id status now = record {
  checks = λ w e (a, b, c, d, _). (a, b, c, d, cleared (same_status status pending) w.verified_at);
  same_id = λ w. refl;
  same_user = λ w. refl;
  same_chain = λ w. refl;
  same_address = λ w. refl;
}

module _ (pg : Postgres) (id : Text) (db : Db) where
  -- A `MarkVerified` that succeeds has updated the pending row of that identifier and nothing else; one
  -- that fails has changed no row.
  pub mark_verified-wallets :
      (at : Time)
      → (mark_verified pg id at db).1 ≡ record db {
        statements = db.statements + 1;
        wallets =
            if is_ok (mark_verified pg id at db).0
            then update_where (is_pending_row id) (verified_row at db.now) db.wallets
            else db.wallets;
      }
  unfolding mark_verified
  mark_verified-wallets at = ground arith

  pub set_status-wallets :
      (status : WalletStatus)
      → ((set_status pg id status db).1.wallets ≡ db.wallets)
        ⊎ ((set_status pg id status db).1.wallets
            ≡ update_where (has_wallet_id id) (status_row status db.now) db.wallets)
  unfolding set_status get_wallet
  set_status-wallets status = ground arith

  pub set_status-policies :
      (status : WalletStatus) → (set_status pg id status db).1.policies ≡ db.policies
  unfolding set_status get_wallet
  set_status-policies status = ground arith

  pub update_policy-wallets : (p : WalletPolicy) → (update_policy pg id p db).1.wallets ≡ db.wallets
  unfolding update_policy
  update_policy-wallets p = ground arith

  -- `MarkVerified` keeps the invariant of the tables, on every branch.
  pub mark_verified-IsConsistent :
      (at : Time) → IsConsistent db → IsConsistent (mark_verified pg id at db).1
  mark_verified-IsConsistent at c =
      let updated_rows =
        harmless-Consistent (is_pending_row id) (verified_row at db.now)
          (verified-IsHarmless id at db.now) db.wallets db.policies c in
      rw mark_verified-wallets (elim (Bool-cases (is_ok (mark_verified pg id at db).0)) [
        | inl e ↦ rw e updated_rows
        | inr e ↦ rw e c
      ])

  -- `SetStatus` keeps the invariant of the tables, on every branch: going back to pending clears the
  -- proof of verification.
  pub set_status-IsConsistent :
      (status : WalletStatus) → IsConsistent db → IsConsistent (set_status pg id status db).1
  set_status-IsConsistent status c = elim (set_status-wallets status) [
    | inl e ↦ rw (e, set_status-policies status) c
    | inr e ↦
        rw (e, set_status-policies status)
          (harmless-Consistent (has_wallet_id id) (status_row status db.now)
            (status-IsHarmless id status db.now) db.wallets db.policies c)
  ]

keeps_owner :
    (id : Text) (values : WalletPolicy) (now : Time) (p : WalletPolicy)
    → (updated (has_policy_of id) (policy_row values now) p).wallet_id ≡ p.wallet_id
keeps_owner id values now p = ground arith

limits-Consistent :
    (id : Text) (values : WalletPolicy) (now : Time) (wallets : List Wallet)
    (policies : List WalletPolicy)
    → Consistent wallets policies
    → Consistent wallets (update_where (has_policy_of id) (policy_row values now) policies)
limits-Consistent id values now wallets policies c = record {
  checked = c.checked;
  apart = c.apart;
  limited =
      All-imp (HasLimits policies) _ wallets
        (λ w h.
          any-update_where (has_policy_of id) (policy_row values now) (has_policy_of w.id) policies
            (λ p. rw (keeps_owner id values now p))
          ∙ h)
        c.limited;
  one_policy =
      Pairs-update_where (has_policy_of id) (policy_row values now) OtherWallet policies
        (λ p q h. rw (keeps_owner id values now p, keeps_owner id values now q) h) c.one_policy;
}

module _ (pg : Postgres) (id : Text) (p : WalletPolicy) (db : Db) where
  update_policy-policies :
      ((update_policy pg id p db).1.policies ≡ db.policies)
      ⊎ ((values : WalletPolicy) × (pg.to_columns p ≡ ok values)
          × ((update_policy pg id p db).1.policies
              ≡ update_where (has_policy_of id) (policy_row values db.now) db.policies))
  unfolding update_policy
  update_policy-policies = elim (Result-cases (pg.to_columns p)) [
    | inl (values, e) ↦ elim (Bool-cases (is_ok (update_policy pg id p db).0)) [
      | inl done ↦ inr (values, e, ground arith)
      | inr failed ↦ inl (ground arith)
    ]
    | inr (f, e) ↦ inl (ground arith)
  ]

  -- `UpdatePolicy` keeps the invariant of the tables, on every branch.
  pub update_policy-IsConsistent : IsConsistent db → IsConsistent (update_policy pg id p db).1
  update_policy-IsConsistent c = elim update_policy-policies [
    | inl e ↦ rw (e, update_policy-wallets pg id db p) c
    | inr (values, _, e) ↦
        rw (e, update_policy-wallets pg id db p)
          (limits-Consistent id values db.now db.wallets db.policies c)
  ]
