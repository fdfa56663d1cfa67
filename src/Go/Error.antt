-- ===== src/Go/Error.antt =====
-- Go errors: values made by `errors.New`, `fmt.Errorf` and `errors.Join`, with `errors.Is` and
-- `Error()`. A sentinel is an error variable that callers compare with.
use hoodalpha.Prelude.{◌==◌, ℕ, ◌≡◌, refl, ◌⊎◌, inl, inr, Bool, true, false, ◌||◌, ◌++◌}
use hoodalpha.Go.Text.{Text, codes}

-- The error variables of the program, and those of other packages that the program compares with.
pub data Sentinel : Type 0 where
  unauthorized wrong_chain wallet_not_owned wallet_already_linked : Sentinel
  not_found chain_not_found : Sentinel
  missing_hash invalid_signature expired future_auth_date : Sentinel
  missing_auth_date missing_user replayed malformed : Sentinel
  skip_retry task_id_conflict ethereum_not_found canceled deadline_exceeded : Sentinel

abbrev index : Sentinel → ℕ
index unauthorized = 0
index wrong_chain = 1
index wallet_not_owned = 2
index wallet_already_linked = 3
index not_found = 4
index chain_not_found = 5
index missing_hash = 6
index invalid_signature = 7
index expired = 8
index future_auth_date = 9
index missing_auth_date = 10
index missing_user = 11
index replayed = 12
index malformed = 13
index skip_retry = 14
index task_id_conflict = 15
index ethereum_not_found = 16
index canceled = 17
index deadline_exceeded = 18

abbrev pub same : Sentinel → Sentinel → Bool
same a b = index a == index b

pub data Error : Type 0 where
  -- an error variable, with its text
  variable : Sentinel → Text → Error
  -- `errors.New(text)`, and `fmt.Errorf` with no `%w`
  new : Text → Error
  -- `fmt.Errorf("text: %w", err)`
  wrap : Text → Error → Error
  -- `fmt.Errorf("%w: text", err)`
  tagged : Error → Text → Error
  -- `fmt.Errorf("%w: %w", first, second)`
  led : Error → Error → Error
  -- `errors.Join(first, second)`
  joined : Error → Error → Error

-- `errors.Is`
abbrev pub is : Error → Sentinel → Bool
is (variable s _) t = same s t
is (new _) t = false
is (wrap _ e) t = is e t
is (tagged e _) t = is e t
is (led e f) t = is e t || is f t
is (joined e f) t = is e t || is f t

-- `err == ErrX`: the variable itself, not an error that wraps it.
abbrev pub is_variable : Error → Sentinel → Bool
is_variable (variable s _) t = same s t
is_variable _ t = false

-- `err.Error()`
unfoldable pub message : Error → Text
unfolding codes
message (variable _ text) = text
message (new text) = text
message (wrap text e) = text ++ codes ": " ++ message e
message (tagged e text) = message e ++ codes ": " ++ text
message (led e f) = message e ++ codes ": " ++ message f
message (joined e f) = message e ++ codes "\n" ++ message f

-- What a function with a Go error result returns.
pub data Result (A : Type 0) : Type 0 where
  ok : A → Result A
  err : Error → Result A

abbrev pub is_ok : {A : Type 0} → Result A → Bool
is_ok (ok _) = true
is_ok (err _) = false

pub Result-cases :
    {A : Type 0} (r : Result A) → ((a : A) × (r ≡ ok a)) ⊎ ((e : Error) × (r ≡ err e))
Result-cases (ok a) = inl (a, refl)
Result-cases (err e) = inr (e, refl)
