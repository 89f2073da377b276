-- ===== src/Risk/Firewall/Closing.antt =====
-- Orders that only close a position, in `validate_order` of src/quant/execution/risk.py.
use quant_stuff.Prelude.{
  ◌≡◌, refl, ap, ◌≢◌, Bool, true, false, Option, none, some, String, List, [], ◌∷◌, arith,
}
use quant_stuff.Prelude.Dict.{Dict}
use quant_stuff.Float.{Float, IsOrdered, lt, fmax, nought, ◌≼◌}
use quant_stuff.Orders.Types.{
  Order, Result, ok, err, Error, raise_if, ◌>>=◌, ◌>>◌, insufficient_margin_risk,
  fat_finger_notional, leverage_limit_exceeded, drawdown_limit_exceeded, fat_finger_quantity,
}
use quant_stuff.Orders.Validate.{Value}
use quant_stuff.Risk.Limits.{RiskLimits, positive_risk_scalar}
use quant_stuff.Risk.State.{
  PortfolioRiskState, drawdown_of, price_of, current_equity, equity_from, add_holding,
}
use quant_stuff.Risk.Firewall.{
  closable_units, required_margin, check_margin, reference_price, sanitise, sound, sound_price,
  market_price, valuation, add_value, projected_from, projected_equity, add_notional,
  notionals_from, projected_notionals, check_ratios, screen, validate_order,
}
use quant_stuff.Risk.Firewall.Decides.{validate_order-verdict, peaked}

-- A result that is not the margin error.
abbrev Avoids : {A : Type 0} → Result A → Type 0
Avoids r = r ≢ err insufficient_margin_risk

avoid_bind :
    {A B : Type 0} (m : Result A) (k : A → Result B)
    → Avoids m
    → ((a : A) → m ≡ ok a → Avoids (k a))
    → Avoids (m >>= k)
avoid_bind (ok a) k h g = g a refl
avoid_bind (err e) k h g = λ p. h (ap err (cc))

avoid_ok : {A : Type 0} (a : A) → Avoids (ok a)
avoid_ok a p = cc

avoid_raise_if : (c : Bool) (e : Error) → e ≢ insufficient_margin_risk → Avoids (raise_if c e)
avoid_raise_if true e h p = h (cc)
avoid_raise_if false e h p = cc

avoid_guard :
    {B : Type 0} (c : Bool) (e : Error) (m : Result B)
    → e ≢ insufficient_margin_risk
    → Avoids m
    → Avoids (raise_if c e >> m)
avoid_guard c e m h k = avoid_bind (raise_if c e) (λ _. m) (avoid_raise_if c e h) λ _ _. k

module _ {F : Type 0} ⦃f : Float F⦄ where
  avoid_price : (sym : String) (prices : Dict F) → Avoids (price_of sym prices)
  unfolding price_of
  avoid_price sym prices p = ground arith

  avoid_scalar : (v : Value F) → Avoids (positive_risk_scalar v)
  unfolding positive_risk_scalar
  avoid_scalar v p = ground arith

  avoid_sound : (x : F) → Avoids (sound x)
  unfolding sound
  avoid_sound x p = ground arith

  avoid_optional : (x : Option F) → Avoids (sound_price x)
  unfolding sound_price
  avoid_optional none = avoid_ok tt
  avoid_optional (some x) = avoid_sound x

  avoid_market : (v : Value F) → Avoids (market_price v)
  unfolding market_price positive_risk_scalar
  avoid_market v p = ground arith

  avoid_sanitise : (order : Order F) (v : Value F) → Avoids (sanitise order v)
  unfolding sanitise
  avoid_sanitise order v =
      avoid_bind _ _ (avoid_sound _)
        λ _ _. avoid_bind _ _ (avoid_optional order.price) λ _ _. avoid_market v

  avoid_reference :
      (given : Option F) (order : Order F) (s : PortfolioRiskState F)
      → Avoids (reference_price given order s)
  unfolding reference_price
  avoid_reference given order s p = ground arith

  reference_finite :
      (given : Option F) (order : Order F) (s : PortfolioRiskState F) (ref : F)
      → reference_price given order s ≡ ok ref
      → f.is_finite ref ≡ true
  unfolding reference_price
  reference_finite given order s ref p = ground arith

  avoid_equity : (prices positions : Dict F) (sum : F) → Avoids (equity_from prices positions sum)
  unfolding equity_from add_holding
  avoid_equity prices [] sum = avoid_ok sum
  avoid_equity prices ((sym, q) ∷ positions) sum =
      avoid_bind _ _ (ground (arith, avoid_price sym prices)) λ a _. avoid_equity prices positions a

  avoid_projected :
      (order : Order F) (ref : F) (s : PortfolioRiskState F) (positions : Dict F) (sum : F)
      → Avoids (projected_from order ref s positions sum)
  unfolding projected_from add_value valuation
  avoid_projected order ref s [] sum = avoid_ok sum
  avoid_projected order ref s ((sym, q) ∷ positions) sum =
      avoid_bind _ _ (ground (arith, avoid_price sym s.current_prices))
        λ a _. avoid_projected order ref s positions a

  avoid_notionals :
      (order : Order F) (ref : F) (s : PortfolioRiskState F) (syms : List String) (sums : F × F)
      → Avoids (notionals_from order ref s syms sums)
  unfolding notionals_from add_notional
  avoid_notionals order ref s [] sums = avoid_ok sums
  avoid_notionals order ref s (sym ∷ syms) sums =
      avoid_bind _ _ (ground (arith, avoid_price sym s.current_prices))
        λ a _. avoid_notionals order ref s syms a

  avoid_ratios :
      (limits : RiskLimits F) (equity : F) (sums : F × F) (target : F)
      → Avoids (check_ratios limits equity sums target)
  unfolding check_ratios
  avoid_ratios limits equity sums target p = ground arith

  module _ (laws : IsOrdered F) where
    required-closing :
        (order : Order F) (ref : F) (s : PortfolioRiskState F)
        → f.is_finite ref ≡ true
        → f.is_finite order.quantity ≡ true
        → f.is_finite (closable_units order s) ≡ true
        → order.quantity ≼ closable_units order s
        → lt nought (required_margin order ref s) ≡ false
    unfolding required_margin
    required-closing order ref s hr hq hc h =
        ground (arith, laws.sub_nonpos order.quantity (closable_units order s), laws.mul_nought ref)

    avoid_screen :
        (listing : List String → List String) (limits : RiskLimits F) (order : Order F)
        (given : Option F) (s : PortfolioRiskState F)
        → f.is_finite order.quantity ≡ true
        → f.is_finite (closable_units order s) ≡ true
        → order.quantity ≼ closable_units order s
        → Avoids (screen listing limits order given s)
    unfolding screen check_margin projected_equity projected_notionals
    avoid_screen listing limits order given s hq hc h =
        avoid_bind (reference_price given order s) _ (avoid_reference given order s) λ ref e.
          avoid_guard (lt limits.max_order_notional (f.mul order.quantity ref)) fat_finger_notional
            _ (λ p. cc)
            (rw (required-closing order ref s (reference_finite given order s ref e) hq hc h) (
              avoid_bind (projected_from order ref s s.positions s.cash) _
                (avoid_projected order ref s s.positions s.cash)
                λ equity _.
                  avoid_guard (f.le equity nought) leverage_limit_exceeded _ (λ p. cc)
                    (avoid_bind _ _ (avoid_notionals order ref s _ _)
                      λ sums _. avoid_ratios limits equity sums _)))

    -- An order that is no larger than the part of the position that it may close, which is what the
    -- position holds on the other side less what pending orders of its side may close, is never refused
    -- for margin, whatever the free margin.
    pub validate_order-closing :
        (listing : List String → List String) (limits : RiskLimits F) (order : Order F)
        (current_price : Value F) (s : PortfolioRiskState F)
        → f.is_finite order.quantity ≡ true
        → f.is_finite (closable_units order s) ≡ true
        → order.quantity ≼ closable_units order s
        → (validate_order listing limits order current_price s).0 ≢ err insufficient_margin_risk
    unfolding current_equity
    validate_order-closing listing limits order current_price s hq hc h =
        rw (validate_order-verdict listing limits order current_price s) (
          avoid_bind _ _ (avoid_sanitise order current_price) λ given _.
            avoid_bind _ _ (avoid_equity s.current_prices s.positions s.cash) λ equity _.
              avoid_guard
                (f.le limits.max_intraday_drawdown_pct
                  (drawdown_of (fmax s.peak_equity equity) equity))
                drawdown_limit_exceeded _ (λ p. cc)
                (avoid_guard (lt limits.max_order_qty order.quantity) fat_finger_quantity _
                  (λ p. cc) (avoid_screen listing limits order given (peaked s equity) hq hc h)))
