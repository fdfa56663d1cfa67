-- ===== src/Domain/Policy/Bounds.antt =====
-- What `Validate` accepts.
use hoodalpha.Prelude.{
  ℕ, String, ◌≡◌, refl, ap, ◌≢◌, ◌↔◌, Bool, true, false, not, ◌||◌, ◌++◌, arith,
}
use hoodalpha.Prelude.Int.{pos, ◌≤ℤ◌}
use hoodalpha.Go.Error.{Result, ok, err, is_ok}
use hoodalpha.Go.Float.{Float, nan, minus_infinity, plus_infinity, finite, literal, flt, fle}
use hoodalpha.Domain.Policy.{
  WalletPolicy, complaint, bad_position, bad_positions, bad_daily_loss, bad_stop_loss, bad_recovery,
  bad_slippage, bad_liquidity, join_errors, validate,
}

-- The bounds that the policy's documentation gives.
pub record IsBounded (p : WalletPolicy) : Type 0 where
  pub position :
      (flt (literal 0) p.max_position_percent ≡ true)
      × (fle p.max_position_percent (literal 100) ≡ true)
  pub positions : pos 1 ≤ℤ p.max_open_positions
  pub daily_loss :
      (flt (literal 0) p.daily_loss_limit_percent ≡ true)
      × (fle p.daily_loss_limit_percent (literal 100) ≡ true)
  pub stop_loss :
      (flt (literal 0) p.stop_loss_percent ≡ true) × (flt p.stop_loss_percent (literal 100) ≡ true)
  pub recovery : flt (literal 0) p.capital_recovery_percent ≡ true
  pub slippage : (pos 0 ≤ℤ p.max_slippage_bps) × (p.max_slippage_bps ≤ℤ pos 10000)
  pub liquidity : fle (literal 0) p.min_liquidity_usd ≡ true

-- No percentage and no amount is NaN.
pub record HasNumbers (p : WalletPolicy) : Type 0 where
  pub position : p.max_position_percent ≢ nan
  pub daily_loss : p.daily_loss_limit_percent ≢ nan
  pub stop_loss : p.stop_loss_percent ≢ nan
  pub recovery : p.capital_recovery_percent ≢ nan
  pub liquidity : p.min_liquidity_usd ≢ nan

flt-fle : (n : ℕ) (x : Float) → x ≢ nan → flt (literal n) x ≡ not (fle x (literal n))
unfolding literal flt fle
flt-fle n nan h = absurd (h refl)
flt-fle n minus_infinity h = refl
flt-fle n plus_infinity h = refl
flt-fle n (finite a) h = ground arith

fle-flt : (n : ℕ) (x : Float) → x ≢ nan → fle x (literal n) ≡ not (flt (literal n) x)
unfolding literal flt fle
fle-flt n nan h = absurd (h refl)
fle-flt n minus_infinity h = refl
fle-flt n plus_infinity h = refl
fle-flt n (finite a) h = ground arith

flt-fle_left : (n : ℕ) (x : Float) → x ≢ nan → flt x (literal n) ≡ not (fle (literal n) x)
unfolding literal flt fle
flt-fle_left n nan h = absurd (h refl)
flt-fle_left n minus_infinity h = refl
flt-fle_left n plus_infinity h = refl
flt-fle_left n (finite a) h = ground arith

seven_complaints :
    (a b c d e f g : Bool) (s t u v w x y : String)
    → is_ok (
        join_errors (
          complaint a s
          ++ complaint b t
          ++ complaint c u
          ++ complaint d v
          ++ complaint e w
          ++ complaint f x
          ++ complaint g y))
      ≡ not (a || b || c || d || e || f || g)
unfolding join_errors
seven_complaints a b c d e f g s t u v w x y = ground arith

is_ok-eq : (r : Result Unit) → is_ok r ≡ true → r ≡ ok tt
is_ok-eq (ok tt) h = refl
is_ok-eq (err e) h = cc

-- The tests of `Validate`, as one.
abbrev pub fails : WalletPolicy → Bool
fails p =
    bad_position p
    || bad_positions p
    || bad_daily_loss p
    || bad_stop_loss p
    || bad_recovery p
    || bad_slippage p
    || bad_liquidity p

pub is_ok-validate : (p : WalletPolicy) → is_ok (validate p) ≡ not (fails p)
unfolding validate
is_ok-validate p = seven_complaints _ _ _ _ _ _ _ _ _ _ _ _ _ _

or_false :
    (a b c d e f g : Bool)
    → (a || b || c || d || e || f || g) ≡ false
    → (a ≡ false)
      × (b ≡ false)
      × (c ≡ false)
      × (d ≡ false)
      × (e ≡ false)
      × (f ≡ false)
      × (g ≡ false)
or_false a b c d e f g h = ground arith

false_or :
    {a b c d e f g : Bool}
    → a ≡ false
    → b ≡ false
    → c ≡ false
    → d ≡ false
    → e ≡ false
    → f ≡ false
    → g ≡ false
    → (a || b || c || d || e || f || g) ≡ false
false_or p q r s t u v = ground arith

none_fails :
    (p : WalletPolicy)
    → bad_position p ≡ false
    → bad_positions p ≡ false
    → bad_daily_loss p ≡ false
    → bad_stop_loss p ≡ false
    → bad_recovery p ≡ false
    → bad_slippage p ≡ false
    → bad_liquidity p ≡ false
    → fails p ≡ false
none_fails p a b c d e f g = false_or a b c d e f g

split :
    (p : WalletPolicy)
    → fails p ≡ false
    → (bad_position p ≡ false)
      × (bad_positions p ≡ false)
      × (bad_daily_loss p ≡ false)
      × (bad_stop_loss p ≡ false)
      × (bad_recovery p ≡ false)
      × (bad_slippage p ≡ false)
      × (bad_liquidity p ≡ false)
split p =
    or_false (bad_position p) (bad_positions p) (bad_daily_loss p) (bad_stop_loss p)
      (bad_recovery p) (bad_slippage p) (bad_liquidity p)

passes-IsBounded : (p : WalletPolicy) → HasNumbers p → fails p ≡ false → IsBounded p
passes-IsBounded p h passes =
    let (a, b, c, d, e, f, g) = split p passes in
    record {
      position = ground (
        arith,
        flt-fle 0 p.max_position_percent h.position,
        fle-flt 100 p.max_position_percent h.position,
      );
      positions = ground arith;
      daily_loss = ground (
        arith,
        flt-fle 0 p.daily_loss_limit_percent h.daily_loss,
        fle-flt 100 p.daily_loss_limit_percent h.daily_loss,
      );
      stop_loss = ground (
        arith,
        flt-fle 0 p.stop_loss_percent h.stop_loss,
        flt-fle_left 100 p.stop_loss_percent h.stop_loss,
      );
      recovery = ground (arith, flt-fle 0 p.capital_recovery_percent h.recovery);
      slippage = ground arith;
      liquidity = ground (arith, flt-fle_left 0 p.min_liquidity_usd h.liquidity);
    }

IsBounded-passes : (p : WalletPolicy) → HasNumbers p → IsBounded p → fails p ≡ false
IsBounded-passes p h b =
    none_fails p
      (ground (
        arith,
        flt-fle 0 p.max_position_percent h.position,
        fle-flt 100 p.max_position_percent h.position,
        b.position,
      ))
      (ground (arith, b.positions))
      (ground (
        arith,
        flt-fle 0 p.daily_loss_limit_percent h.daily_loss,
        fle-flt 100 p.daily_loss_limit_percent h.daily_loss,
      ))
      (ground (
        arith,
        flt-fle 0 p.stop_loss_percent h.stop_loss,
        flt-fle_left 100 p.stop_loss_percent h.stop_loss,
      ))
      (ground (arith, flt-fle 0 p.capital_recovery_percent h.recovery)) (ground (arith, b.slippage))
      (ground (arith, flt-fle_left 0 p.min_liquidity_usd h.liquidity))

-- For a policy without NaN, `Validate` succeeds exactly if every limit is within its bounds.
pub validate_exactly : (p : WalletPolicy) → HasNumbers p → (validate p ≡ ok tt) ↔ IsBounded p
validate_exactly p h = (
  λ e. passes-IsBounded p h (ground (arith, is_ok-validate p)),
  λ b. is_ok-eq (validate p) (rw (is_ok-validate p, IsBounded-passes p h b)),
)

-- `Validate` cannot see a NaN: whatever a policy holds, putting NaN in place of one of its five
-- fractional limits never makes it refused if it was accepted before.
pub validate-nan :
    (p : WalletPolicy)
    → validate p ≡ ok tt
    → (validate (record p { stop_loss_percent = nan }) ≡ ok tt)
      × (validate (record p { max_position_percent = nan }) ≡ ok tt)
      × (validate (record p { daily_loss_limit_percent = nan }) ≡ ok tt)
      × (validate (record p { capital_recovery_percent = nan }) ≡ ok tt)
      × (validate (record p { min_liquidity_usd = nan }) ≡ ok tt)
unfolding flt fle literal
validate-nan p e =
    let (a, b, c, d, f, g, k) = split p (ground (arith, is_ok-validate p)) in
    (
      is_ok-eq _ (rw is_ok-validate (ap not (false_or a b c refl f g k))),
      is_ok-eq _ (rw is_ok-validate (ap not (false_or refl b c d f g k))),
      is_ok-eq _ (rw is_ok-validate (ap not (false_or a b refl d f g k))),
      is_ok-eq _ (rw is_ok-validate (ap not (false_or a b c d refl g k))),
      is_ok-eq _ (rw is_ok-validate (ap not (false_or a b c d f g refl))),
    )
