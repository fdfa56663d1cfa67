-- ===== src/InitData/Replay.antt =====
-- The verifier over the guard in Redis, and a payload that comes again.
use hoodalpha.Prelude.{
  any, Any, ℕ, ◌+◌, ◌-◌, ◌*◌, ◌^◌, ◌≤◌, ◌<◌, ◌≡◌, refl, sym, ap, ◌∙◌, subst, inl, inr, true, false,
  some, List, [], ◌∷◌, arith,
}
use hoodalpha.Prelude.Int.{pos, ◌+ℤ◌, ◌-ℤ◌, ◌≤ℤ◌, +ℤ_parts, -ℤ_parts, int_laws}
use hoodalpha.Go.Text.{Text, text_eq_refl, text_eq}
use hoodalpha.Go.Error.{ok, is_ok, Result-cases}
use hoodalpha.Go.Exec.{Exec}
use hoodalpha.Go.Time.{Time, Duration, minute, add_duration, add_duration_small}
use hoodalpha.InitData.{check_replay, verify}
use hoodalpha.InitData.Guard.{Entry, Redis, request, is_live, set_nx, guard_key, first_use}
use hoodalpha.InitData.Accepted.{verify_steps, verify_state, verify_ok}
use hoodalpha.InitData.Types.{Data, Library, Verifier}

-- A verifier as the API process makes it, with the guard in Redis.
abbrev pub guarded_verifier : Text → Text → Duration → Duration → Verifier Redis
guarded_verifier secret_key prefix ttl clock_skew = record {
  secret_key = secret_key;
  ttl = ttl;
  guard = some (first_use prefix);
  now = λ r. r.now;
  clock_skew = clock_skew;
}

-- A key is kept until an instant, at least.
abbrev pub IsKept : Text → Time → List Entry → Type 0
IsKept key until = Any (λ e. (text_eq e.key key ≡ true) × (until ≤ℤ e.expires))

kept_live :
    (key : Text) (until now : Time) (es : List Entry)
    → now ≤ℤ until
    → IsKept key until es
    → any (is_live now key) es ≡ true
unfolding is_live
kept_live key until now [] h k = elim k [ ]
kept_live key until now (e ∷ es) h k = ground (arith, kept_live key until now es)

-- A new hash is recorded for as long as the guard was told.
pub first_use_recorded :
    (prefix hash : Text) (ttl : Duration) (r : Redis)
    → (first_use prefix hash ttl r).0 ≡ ok true
    → IsKept
        (guard_key prefix hash)
        (r.server_now +ℤ r.kept_for ttl)
        (first_use prefix hash ttl r).1.entries
unfolding first_use set_nx request
first_use_recorded prefix hash ttl r h = ground (arith, text_eq_refl (guard_key prefix hash))

first_use_new :
    (prefix hash : Text) (ttl : Duration) (r : Redis)
    → (first_use prefix hash ttl r).0 ≡ ok true
    → any (is_live r.server_now (guard_key prefix hash)) r.entries ≡ false
unfolding first_use set_nx request
first_use_new prefix hash ttl r h = ground arith

-- Redis at a later time: a key that has not expired is still there.
abbrev pub IsLater : Redis → Redis → Type 0
IsLater r q =
    (key : Text) (until : Time)
    → IsKept key until r.entries
    → q.server_now ≤ℤ until
    → IsKept key until q.entries

-- Positive expiries of whole milliseconds reach the server as they are.
abbrev pub KeepsMilliseconds : Redis → Type 0
KeepsMilliseconds r = (ms : ℕ) → 0 < ms → r.kept_for (pos (ms * 1_000_000)) ≡ pos (ms * 1_000_000)

-- Between two states the clock of the server has gone on by no more than the clock of the process.
abbrev pub IsNoFaster : Redis → Redis → Type 0
IsNoFaster r q = q.server_now -ℤ r.server_now ≤ℤ q.now -ℤ r.now

-- The entry for a payload lasts for the limit on its age and a minute.
lifetime_exact :
    (r : Redis) (ms ttl : ℕ)
    → KeepsMilliseconds r
    → ttl ≡ ms * 1_000_000
    → ttl + minute < 2 ^ 63
    → r.kept_for (add_duration (pos ttl) (pos minute)) ≡ pos (ttl + minute)
lifetime_exact r ms ttl keeps whole fits =
    let e : (ms + 60_000) * 1_000_000 ≡ ttl + minute = omega (arith, whole) in
    ap r.kept_for (add_duration_small ttl minute fits)
    ∙ (ap (λ n. r.kept_for (pos n)) (sym e)
        ∙ (keeps (ms + 60_000) (omega arith) ∙ ap (λ n. pos n) e))

-- A payload that is young enough at `q` is in the time of the entry that was made for it at `r`.
replayed_in_time :
    (auth : Time) (r q : Redis) (ttl skew : ℕ)
    → skew ≤ minute
    → auth -ℤ r.now ≤ℤ pos skew
    → q.now -ℤ auth ≤ℤ pos ttl
    → IsNoFaster r q
    → q.server_now ≤ℤ r.server_now +ℤ pos (ttl + minute)
replayed_in_time auth r q ttl skew h ahead age slow = omega (
  int_laws,
  h,
  ahead,
  age,
  slow,
  -ℤ_parts auth r.now,
  -ℤ_parts q.now auth,
  -ℤ_parts q.now r.now,
  -ℤ_parts q.server_now r.server_now,
  +ℤ_parts r.server_now (pos (ttl + minute)),
)

module _ (library : Library) (secret_key prefix : Text) (ttl skew : ℕ) where
  abbrev pub verify_at : Text → Exec Redis Data
  verify_at = verify library (guarded_verifier secret_key prefix (pos ttl) (pos skew))

  guard_passed :
      (hash : Text) (r : Redis)
      → (check_replay library (guarded_verifier secret_key prefix (pos ttl) (pos skew)) hash r).0
        ≡ ok tt
      → ((first_use prefix hash (add_duration (pos ttl) (pos minute)) r).0 ≡ ok true)
        × ((check_replay library (guarded_verifier secret_key prefix (pos ttl) (pos skew)) hash r).1
            ≡ (first_use prefix hash (add_duration (pos ttl) (pos minute)) r).1)
  unfolding check_replay
  guard_passed hash r h =
      elim (Result-cases (first_use prefix hash (add_duration (pos ttl) (pos minute)) r).0) [
        | inr (e, failed) ↦ ground arith
        | inl (first, answered) ↦ ground arith
      ]

  recorded :
      (raw : Text) (r : Redis) (found : Data)
      → (verify_at raw r).0 ≡ ok found
      → ((first_use prefix found.hash (add_duration (pos ttl) (pos minute)) r).0 ≡ ok true)
        × ((verify_at raw r).1
            ≡ (first_use prefix found.hash (add_duration (pos ttl) (pos minute)) r).1)
  recorded raw r found h =
      let v = guarded_verifier secret_key prefix (pos ttl) (pos skew) in
      let (values, parsed, checked, fresh) = verify_steps library v raw r found h in
      let (first, state) = guard_passed found.hash r fresh in
      (first, verify_state library v raw r found h ∙ state)

  -- Two acceptances of one payload agree on its hash and its date.
  same_payload :
      (raw : Text) (r q : Redis) (found again : Data)
      → ttl < 2 ^ 63 - 1
      → skew < 2 ^ 63 - 1
      → (verify_at raw r).0 ≡ ok found
      → (verify_at raw q).0 ≡ ok again
      → (again.hash ≡ found.hash)
        × (again.auth_date ≡ found.auth_date)
        × (found.auth_date -ℤ r.now ≤ℤ pos skew)
        × (q.now -ℤ again.auth_date ≤ℤ pos ttl)
  same_payload raw r q found again ttl_h skew_h h h' =
      let v = guarded_verifier secret_key prefix (pos ttl) (pos skew) in
      let (vs, parsed, _, hashed, dated, _, ahead, _, _) =
        verify_ok library v raw r found ttl skew refl ttl_h refl skew_h h in
      let (ws, parsed', _, hashed', dated', age, _, _, _) =
        verify_ok library v raw q again ttl skew refl ttl_h refl skew_h h' in
      (ground arith, ground arith, ahead, age)

  -- With an age limit of whole milliseconds that fits in a `Duration` with a minute more, and a tolerance
  -- for clocks of at most a minute, a payload that was accepted is refused at every later time while Redis
  -- keeps its unexpired keys: the entry of the guard lasts until the payload is too old. The clock of Redis
  -- may differ from that of the process but runs no faster between the two uses, and the client sends
  -- whole milliseconds as they are.
  pub accepted_once :
      (raw : Text) (r q : Redis) (found : Data) (ms : ℕ)
      → ttl ≡ ms * 1_000_000
      → ttl + minute < 2 ^ 63
      → skew ≤ minute
      → KeepsMilliseconds r
      → IsNoFaster r q
      → (verify_at raw r).0 ≡ ok found
      → IsLater (verify_at raw r).1 q
      → is_ok (verify_at raw q).0 ≡ false
  accepted_once raw r q found ms whole fits skew_h keeps slow h later =
      elim (Result-cases (verify_at raw q).0) [
        | inr (e, refused) ↦ ground arith
        | inl (again, accepted) ↦
            let lifetime = add_duration (pos ttl) (pos minute) in
            let key = guard_key prefix found.hash in
            let (hashes, dates, ahead, age) =
              same_payload raw r q found again (omega arith) (omega arith) h accepted in
            let (first, state) = recorded raw r found h in
            let until = r.server_now +ℤ pos (ttl + minute) in
            let exact = lifetime_exact r ms ttl keeps whole fits in
            let kept_first = first_use_recorded prefix found.hash lifetime r first in
            let kept_at =
              subst (λ t. IsKept key until t.entries) (sym state)
                (subst
                  (λ d.
                    IsKept key (r.server_now +ℤ d)
                      (first_use prefix found.hash lifetime r).1.entries)
                  exact kept_first) in
            let is_new = first_use_new prefix found.hash lifetime q (
              subst (λ t. (first_use prefix t lifetime q).0 ≡ ok true) hashes
                (recorded raw q again accepted).0) in
            let in_time =
              replayed_in_time found.auth_date r q ttl skew skew_h ahead
                (ground (arith, dates, age)) slow in
            absurd (
              ground (
                arith,
                is_new,
                kept_live key until q.server_now q.entries in_time
                    (later key until kept_at in_time),
              ))
      ]
