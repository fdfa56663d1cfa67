-- ===== src/Go/Exec.antt =====
-- Methods that change state and may return an error. What was written before an error stays
-- written, so the state comes back beside the error too.
use hoodalpha.Prelude.{if◌then◌else◌, ◌≡◌, ◌∙◌, inl, inr, Bool, arith}
use hoodalpha.Go.Error.{Error, Result, ok, err, Result-cases}

abbrev pub Exec : Type 0 → Type 0 → Type 0
Exec S A = S → Result A × S

-- `fmt.Errorf("text: %w", err)` around the error of a call.
abbrev pub mapped : {A : Type 0} → (Error → Error) → Result A → Result A
mapped f (ok a) = ok a
mapped f (err e) = err (f e)

module _ {S A : Type 0} where
  abbrev pub pure : A → Exec S A
  pure a s = (ok a, s)

  abbrev pub fail : Error → Exec S A
  fail e s = (err e, s)

  abbrev pub lift : Result A → Exec S A
  lift r s = (r, s)

  abbrev pub wrapping : (Error → Error) → Exec S A → Exec S A
  wrapping f m s = let (r, s') = m s in (mapped f r, s')

  -- The result of a call as a value, its error included: `x, err := f()` with the test left to the caller.
  abbrev pub attempt : Exec S A → Exec S (Result A)
  attempt m s = let (r, s') = m s in (ok r, s')

module _ {S : Type 0} where
  abbrev pub get : Exec S S
  get s = (ok s, s)

  abbrev pub modify : (S → S) → Exec S Unit
  modify f s = (ok tt, f s)

  -- An early return with an error where a test holds.
  abbrev pub fail_if : Bool → Error → Exec S Unit
  fail_if c e s = (if c then err e else ok tt, s)

module _ {S A B : Type 0} where
  abbrev pub continue : Result A → (A → Exec S B) → Exec S B
  continue (ok a) f s = f a s
  continue (err e) f s = (err e, s)

  infixl 5 ◌>>=◌ ◌>>◌
  abbrev pub ◌>>=◌ : Exec S A → (A → Exec S B) → Exec S B
  ◌>>=◌ m f s = let (r, s') = m s in continue r f s'

  abbrev pub ◌>>◌ : Exec S A → Exec S B → Exec S B
  m >> n = m >>= λ _. n

-- A block that succeeds has run its first call with success, and then the rest from the state after it.
pub bind_ok :
    {S A B : Type 0} (m : Exec S A) (f : A → Exec S B) (s s1 : S) (b : B)
    → (m >>= f) s ≡ (ok b, s1)
    → (a : A) × (s' : S) × (m s ≡ (ok a, s')) × (f a s' ≡ (ok b, s1))
bind_ok m f s s1 b h = elim (Result-cases (m s).0) [
  | inl (a, r) ↦ (a, (m s).1, ground arith, ground arith)
  | inr (e, r) ↦ ground arith
]

-- Text around an error changes no success.
pub wrapping_ok :
    {S A : Type 0} (g : Error → Error) (m : Exec S A) (s s1 : S) (a : A)
    → wrapping g m s ≡ (ok a, s1)
    → m s ≡ (ok a, s1)
wrapping_ok g m s s1 a h = elim (Result-cases (m s).0) [
  | inl (b, r) ↦ ground arith
  | inr (e, r) ↦ ground arith
]

pub lift_ok : {S A : Type 0} (r : Result A) (s s1 : S) (a : A) → lift r s ≡ (ok a, s1) → r ≡ ok a
lift_ok r s s1 a h = ground arith

pub pure_ok : {S A : Type 0} (a b : A) (s s1 : S) → pure a s ≡ (ok b, s1) → a ≡ b
pure_ok a b s s1 h = ground arith

-- Code that leaves a view of the state as it is, whether it succeeds or fails.
module _ {S V : Type 0} (view : S → V) where
  abbrev pub Keeps : {A : Type 0} → Exec S A → Type 0
  Keeps m = (s : S) → view (m s).1 ≡ view s

  pub bind-Keeps :
      {A B : Type 0} (m : Exec S A) (f : A → Exec S B)
      → Keeps m
      → ((a : A) → Keeps (f a))
      → Keeps (m >>= f)
  bind-Keeps m f keeps then_keeps s = elim (Result-cases (m s).0) [
    | inl (a, done) ↦ rw done (then_keeps a (m s).1 ∙ keeps s)
    | inr (e, failed) ↦ rw failed (keeps s)
  ]
