-- ===== src/System/Site/Verifier.antt =====
-- The verifier on the whole state against the verifier over Redis.
use hoodalpha.Prelude.{Bool-cases, ℕ, ◌≡◌, refl, sym, ap, ◌∙◌, inl, inr, some, [], arith}
use hoodalpha.Prelude.Int.{pos}
use hoodalpha.Go.Text.{Text, text_eq, trim_space}
use hoodalpha.Go.Error.{ok, Result-cases}
use hoodalpha.Go.Time.{Time, minute, add_duration}
use hoodalpha.InitData.Types.{Data, Library, Verifier}
use hoodalpha.InitData.{check_replay, check_values, verify}
use hoodalpha.InitData.Query.{Values, parse_query}
use hoodalpha.InitData.Guard.{first_use}
use hoodalpha.InitData.Accepted.{verify_state}
use hoodalpha.InitData.Replay.{guarded_verifier, verify_at}
use hoodalpha.System.Site.{Site, at_redis}

module _ (library : Library) (secret_key prefix : Text) (ttl skew : ℕ) where
  -- The verifier of `guarded_verifier`, on the whole state.
  abbrev pub site_verifier : Verifier Site
  site_verifier = record {
    secret_key = secret_key;
    ttl = pos ttl;
    guard = some (λ hash d. at_redis (first_use prefix hash d));
    now = λ s. s.redis.now;
    clock_skew = pos skew;
  }

  check_replay-redis :
      (hash : Text) (s : Site)
      → (check_replay library site_verifier hash s).0
        ≡ (check_replay library
            (guarded_verifier secret_key prefix (pos ttl) (pos skew))
            hash
            s.redis).0
  unfolding check_replay
  check_replay-redis hash s =
      elim (Result-cases (first_use prefix hash (add_duration (pos ttl) (pos minute)) s.redis).0) [
        | inr (e, failed) ↦ ground arith
        | inl (first, answered) ↦ ground arith
      ]

  check_replay-state :
      (hash : Text) (s : Site)
      → (check_replay library site_verifier hash s).1.redis
        ≡ (check_replay library
            (guarded_verifier secret_key prefix (pos ttl) (pos skew))
            hash
            s.redis).1
  unfolding check_replay
  check_replay-state hash s =
      elim (Result-cases (first_use prefix hash (add_duration (pos ttl) (pos minute)) s.redis).0) [
        | inr (e, failed) ↦ ground arith
        | inl (first, answered) ↦ ground arith
      ]

  check_values-redis :
      (values : Values) (now : Time)
      → check_values library site_verifier values now
        ≡ check_values library (guarded_verifier secret_key prefix (pos ttl) (pos skew)) values now
  unfolding check_values
  check_values-redis values now = refl

  -- What the verifier answers depends on Redis only.
  pub verify-redis :
      (raw : Text) (s : Site)
      → (verify library site_verifier raw s).0
        ≡ (verify_at library secret_key prefix ttl skew raw s.redis).0
  unfolding verify
  verify-redis raw s = elim (Bool-cases (text_eq (trim_space raw) [])) [
    | inl blank ↦ ground (arith, blank)
    | inr given ↦ elim (Result-cases (parse_query raw)) [
      | inr (e, unparsed) ↦ ground (arith, given, unparsed)
      | inl (values, parsed) ↦
          elim (Result-cases (check_values library site_verifier values s.redis.now)) [
            | inr (e, refused) ↦
                let same = check_values-redis values s.redis.now in
                ground (arith, given, parsed, refused, same)
            | inl (found, checked) ↦
                let same = check_values-redis values s.redis.now in
                let guard = check_replay-redis found.hash s in
                elim (Result-cases (check_replay library site_verifier found.hash s).0) [
                  | inr (e, used) ↦ ground (arith, given, parsed, checked, same, guard, used)
                  | inl (u, fresh) ↦ ground (arith, given, parsed, checked, same, guard, fresh)
                ]
          ]
    ]
  ]

  -- Where it accepts, it leaves Redis as the verifier over Redis does.
  pub verify-state :
      (raw : Text) (s : Site) (found : Data)
      → (verify library site_verifier raw s).0 ≡ ok found
      → (verify library site_verifier raw s).1.redis
        ≡ (verify_at library secret_key prefix ttl skew raw s.redis).1
  verify-state raw s found accepted =
      ap (λ (t : Site). t.redis) (verify_state library site_verifier raw s found accepted)
      ∙ (check_replay-state found.hash s
          ∙ sym (
              verify_state library (guarded_verifier secret_key prefix (pos ttl) (pos skew)) raw
                s.redis found (sym (verify-redis raw s) ∙ accepted)))
