-- ===== src/Bootstrap/Closing.antt =====
-- What `New` and `Close` leave open.
use hoodalpha.Prelude.{
  if◌then◌else◌, ◌≡◌, refl, sym, ap, ◌∙◌, subst, Bool, true, false, List, [], ◌∷◌, ◌++◌, arith,
}
use hoodalpha.Go.Error.{Error, Result, ok, err}
use hoodalpha.Go.Exec.{Exec, ◌>>=◌}
use hoodalpha.Bootstrap.{
  Handle, postgres, redis, chain, Wanted, Infrastructure, close_all, open_next, migrate_first,
  new_deps,
}

-- The handles that `New` opens, the newest first.
abbrev pub opened_by : Wanted → List Handle
opened_by o =
    (if o.chain_wanted then chain ∷ [] else [])
    ++ ((if o.redis_wanted then redis ∷ [] else [])
        ++ ((if o.postgres_wanted then postgres ∷ [] else []) ++ []))

module _ {S : Type 0} (infra : Infrastructure S) (live : S → List Handle) where
  -- What the libraries do: a connection that is made is open until it is closed, one that fails is not
  -- open, and a migration leaves none.
  pub record IsTracked : Type 0 where
    pub made : (h : Handle) (s s1 : S) → infra.open_handle h s ≡ (ok tt, s1) → live s1 ≡ h ∷ live s
    pub failed :
        (h : Handle) (s s1 : S) (e : Error) → infra.open_handle h s ≡ (err e, s1) → live s1 ≡ live s
    pub migrated : (s : S) → live (infra.migrations s).1 ≡ live s
    pub shut :
        (h : Handle) (s : S) (rest : List Handle)
        → live s ≡ h ∷ rest
        → live (infra.close_handle h s).1 ≡ rest

module _ {S : Type 0} (infra : Infrastructure S) (live : S → List Handle)
    (tracked : IsTracked infra live) where
  open tracked use {made, failed, migrated, shut}

  -- Closing the newest handles, in order, leaves what was open before them.
  pub close_all-live :
      (handles rest : List Handle) (s : S)
      → live s ≡ handles ++ rest
      → live (close_all infra handles s).1 ≡ rest
  unfolding close_all
  close_all-live [] rest s h = h
  close_all-live (x ∷ handles) rest s h =
      close_all-live handles rest (infra.close_handle x s).1 (shut x s (handles ++ rest) h)

  -- What is open behind a part of `New` that began with some handles open on top of others.
  abbrev pub Left : List Handle → List Handle → Result (List Handle) × S → Type 0
  Left expected rest (ok got, s) = (got ≡ expected) × (live s ≡ expected ++ rest)
  Left expected rest (err e, s) = live s ≡ rest

  open_next-live :
      (wanted : Bool) (h : Handle) (handles rest : List Handle) (s : S)
      → live s ≡ handles ++ rest
      → Left ((if wanted then h ∷ [] else []) ++ handles) rest (open_next infra wanted h handles s)
  unfolding open_next
  open_next-live false h handles rest s e = (refl, e)
  open_next-live true h handles rest s e = by_answer (infra.open_handle h s) refl
    where
      by_answer :
          (answer : Result Unit × S)
          → infra.open_handle h s ≡ answer
          → Left (h ∷ handles) rest (elim answer.0 [
            | ok _ ↦ (ok (h ∷ handles), answer.1)
            | err f ↦ (err f, (close_all infra handles answer.1).1)
          ])
      by_answer (ok tt, s1) a = (refl, made h s s1 a ∙ ap (λ hs. h ∷ hs) e)
      by_answer (err f, s1) a = close_all-live handles rest s1 (failed h s s1 f a ∙ e)

  -- The next part keeps what the parts before it left.
  then-Left :
      (m : Exec S (List Handle)) (next : List Handle → Exec S (List Handle))
      (mid last rest : List Handle) (s : S)
      → Left mid rest (m s)
      → ((t : S) → live t ≡ mid ++ rest → Left last rest (next mid t))
      → Left last rest ((m >>= next) s)
  then-Left m next mid last rest s before after = by_answer (m s) refl before
    where
      by_answer :
          (answer : Result (List Handle) × S)
          → m s ≡ answer
          → Left mid rest answer
          → Left last rest ((m >>= next) s)
      by_answer (ok got, t) a (e, open_now) =
          let q : (m >>= next) s ≡ next mid t = ground arith in
          subst (Left last rest) (sym q) (after t open_now)
      by_answer (err f, t) a closed =
          let q : (m >>= next) s ≡ (err f, t) = ground arith in
          subst (Left last rest) (sym q) closed

  migrate_first-live : (b : Bool) (s : S) → live (migrate_first infra b s).1 ≡ live s
  migrate_first-live false s = refl
  migrate_first-live true s = migrated s

  opened-live :
      (o : Wanted) (rest : List Handle) (s : S)
      → live s ≡ rest
      → Left (opened_by o) rest (
          (open_next infra o.postgres_wanted postgres [] >>= λ one.
          open_next infra o.redis_wanted redis one >>= λ two.
          open_next infra o.chain_wanted chain two)
            s)
  opened-live o rest s e =
      let one = (if o.postgres_wanted then postgres ∷ [] else []) ++ [] in
      let two = (if o.redis_wanted then redis ∷ [] else []) ++ one in
      then-Left (open_next infra o.postgres_wanted postgres [])
        (λ one. open_next infra o.redis_wanted redis one >>= λ two.
          open_next infra o.chain_wanted chain two)
        one (opened_by o) rest s (open_next-live o.postgres_wanted postgres [] rest s e)
        (λ t e.
          then-Left (open_next infra o.redis_wanted redis one)
            (λ two. open_next infra o.chain_wanted chain two) two (opened_by o) rest t
            (open_next-live o.redis_wanted redis one rest t e)
            (λ u e. open_next-live o.chain_wanted chain two rest u e))

  -- `New` leaves nothing open behind an error but what was open before; where it succeeds, exactly the
  -- wanted connections are open on top of that, and they are the ones that `Close` will close.
  pub new_deps-live : (o : Wanted) (s : S) → Left (opened_by o) (live s) (new_deps infra o s)
  unfolding new_deps
  new_deps-live o s =
      by_answer (migrate_first infra o.migrate s) refl (migrate_first-live o.migrate s)
    where
      by_answer :
          (answer : Result Unit × S)
          → migrate_first infra o.migrate s ≡ answer
          → live (migrate_first infra o.migrate s).1 ≡ live s
          → Left (opened_by o) (live s) (new_deps infra o s)
      by_answer (ok _, t) a e =
          let unchanged = sym (ap (λ p. live p.1) a) ∙ e in
          let q : new_deps infra o s
              ≡ (open_next infra o.postgres_wanted postgres [] >>= λ one.
                    open_next infra o.redis_wanted redis one >>= λ two.
                    open_next infra o.chain_wanted chain two)
                  t =
            ground arith in
          subst (Left (opened_by o) (live s)) (sym q) (opened-live o (live s) t unchanged)
      by_answer (err f, t) a e =
          let q : new_deps infra o s ≡ (err f, t) = ground arith in
          subst (Left (opened_by o) (live s)) (sym q) (sym (ap (λ p. live p.1) a) ∙ e)
