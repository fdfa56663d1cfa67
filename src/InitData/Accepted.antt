-- ===== src/InitData/Accepted.antt =====
-- What an accepted payload has passed.
use hoodalpha.Prelude.{
  Option-cases, ℕ, ◌-◌, ◌^◌, ◌<◌, ◌≡◌, ◌⊎◌, inl, inr, true, false, none, some, [], arith,
}
use hoodalpha.Prelude.Int.{pos, ◌-ℤ◌, ◌≤ℤ◌, ltb_ℤ}
use hoodalpha.Go.Text.{Text, codes, text_eq, trim_space}
use hoodalpha.Go.Error.{Error, ok, err, Result-cases}
use hoodalpha.Go.Time.{Time, minute, since, add_duration, since-le}
use hoodalpha.InitData.Query.{Values, value_of, parse_query}
use hoodalpha.InitData.{is_signed, auth_date_of, user_of, check_replay, check_values, verify}
use hoodalpha.InitData.Types.{Data, Library, ReplayGuard, Verifier}

module _ (library : Library) {S : Type 0} (v : Verifier S) where
  -- The payload carries the MAC of its own fields, is dated within the window and names a user.
  abbrev pub IsSound : Values → Time → Data → Type 0
  IsSound values now found =
      (is_signed library v.secret_key values ≡ true)
      × (found.hash ≡ value_of values (codes "hash"))
      × (auth_date_of library values ≡ ok found.auth_date)
      × (ltb_ℤ v.ttl (since now found.auth_date) ≡ false)
      × (ltb_ℤ v.clock_skew (since found.auth_date now) ≡ false)
      × (ltb_ℤ (pos 0) found.user.id ≡ true)

  pub check_values_ok :
      (values : Values) (now : Time) (found : Data)
      → check_values library v values now ≡ ok found
      → IsSound values now found
  unfolding check_values auth_date_of user_of
  check_values_ok values now found h = elim (Result-cases (auth_date_of library values)) [
    | inr (e, undated) ↦ ground arith
    | inl (auth_date, dated) ↦ elim (Result-cases (user_of library values)) [
      | inr (e, unnamed) ↦ ground arith
      | inl (user, named) ↦ ground arith
    ]
  ]

  -- The replay guard, where there is one, was asked for the hash and said that it is new.
  abbrev pub IsFirstUse : Text → S → Type 0
  IsFirstUse hash s =
      (v.guard ≡ none)
      ⊎ ((g : ReplayGuard S) × (v.guard ≡ some g)
          × ((g hash (add_duration v.ttl (pos minute)) s).0 ≡ ok true))

  check_replay_ok :
      (hash : Text) (s : S) → (check_replay library v hash s).0 ≡ ok tt → IsFirstUse hash s
  unfolding check_replay
  check_replay_ok hash s h = elim (Option-cases v.guard) [
    | inl unguarded ↦ inl unguarded
    | inr (g, guarded) ↦ inr (
      g,
      guarded,
      elim (Result-cases (g hash (add_duration v.ttl (pos minute)) s).0) [
        | inr (e, failed) ↦ ground arith
        | inl (first, answered) ↦ ground arith
      ],
    )
  ]

  pub verify_steps :
      (raw : Text) (s : S) (found : Data)
      → (verify library v raw s).0 ≡ ok found
      → (values : Values) × (parse_query raw ≡ ok values)
        × (check_values library v values (v.now s) ≡ ok found)
        × ((check_replay library v found.hash s).0 ≡ ok tt)
  unfolding verify
  verify_steps raw s found h = elim (Result-cases (parse_query raw)) [
    | inr (e, unparsed) ↦ ground arith
    | inl (values, parsed) ↦ elim (Result-cases (check_values library v values (v.now s))) [
      | inr (e, refused) ↦ ground arith
      | inl (f, checked) ↦ elim (Result-cases (check_replay library v f.hash s).0) [
        | inr (e, replay) ↦ ground arith
        | inl (u, fresh) ↦ (values, parsed, ground arith, ground arith)
      ]
    ]
  ]

  pub verify_state :
      (raw : Text) (s : S) (found : Data)
      → (verify library v raw s).0 ≡ ok found
      → (verify library v raw s).1 ≡ (check_replay library v found.hash s).1
  unfolding verify
  verify_state raw s found h =
      let (values, parsed, checked, fresh) = verify_steps raw s found h in
      ground (arith, parsed, checked, fresh)

  -- With a limit on the age and a tolerance that fit in a `Duration`, whatever `Verify` accepts was signed with the key of the bot over the very fields of the payload, is
  -- not older than the limit nor further ahead than the tolerance, by the exact difference of the times
  -- although the code computes it in 64 bits, names a user with a positive identifier, and is new to the
  -- replay guard where there is one.
  pub verify_ok :
      (raw : Text) (s : S) (found : Data) (ttl skew : ℕ)
      → v.ttl ≡ pos ttl
      → ttl < 2 ^ 63 - 1
      → v.clock_skew ≡ pos skew
      → skew < 2 ^ 63 - 1
      → (verify library v raw s).0 ≡ ok found
      → (values : Values) × (parse_query raw ≡ ok values)
        × (is_signed library v.secret_key values ≡ true)
        × (found.hash ≡ value_of values (codes "hash"))
        × (auth_date_of library values ≡ ok found.auth_date)
        × (v.now s -ℤ found.auth_date ≤ℤ pos ttl)
        × (found.auth_date -ℤ v.now s ≤ℤ pos skew)
        × (ltb_ℤ (pos 0) found.user.id ≡ true)
        × IsFirstUse found.hash s
  verify_ok raw s found ttl skew ttl_e ttl_h skew_e skew_h h =
      let (values, parsed, checked, fresh) = verify_steps raw s found h in
      let (signed, hashed, dated, young, old, named) =
        check_values_ok values (v.now s) found checked in
      (
        values,
        parsed,
        signed,
        hashed,
        dated,
        since-le (v.now s) found.auth_date ttl ttl_h (ground (arith, ttl_e, young)),
        since-le found.auth_date (v.now s) skew skew_h (ground (arith, skew_e, old)),
        named,
        check_replay_ok found.hash s fresh,
      )

  -- A payload that is refused for its text, its signature, its date or its user leaves the replay guard
  -- as it was: `Verify` changes no state before those tests have passed.
  pub refused_unrecorded :
      (raw : Text) (values : Values) (s : S) (e : Error)
      → text_eq (trim_space raw) [] ≡ false
      → parse_query raw ≡ ok values
      → check_values library v values (v.now s) ≡ err e
      → verify library v raw s ≡ (err e, s)
  unfolding verify
  refused_unrecorded raw values s e some_text parsed refused = ground arith
