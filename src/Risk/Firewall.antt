-- ===== src/Risk/Firewall.antt =====
-- PreTradeRiskFirewall of src/quant/execution/risk.py: `validate_order`, its checks in their order.
-- `listing` is the order in which Python lists a set of symbols.
pub mod Projection
pub mod Projects
pub mod Totals
pub mod Accounts
pub mod Within
pub mod Closing
pub mod Decides
use quant_stuff.Prelude.{
  Bool, not, ◌&&◌, ◌||◌, Option, none, some, String, List, [], ◌∷◌, if◌then◌else◌, str_eq,
}
use quant_stuff.Prelude.Dict.{Dict, lookup, add}
use quant_stuff.Float.{Float, lt, fmin, fmax, nought, absolute}
use quant_stuff.Orders.Types.{
  Order, OrderSide, Result, ok, err, non_finite_risk_input, drawdown_limit_exceeded,
  fat_finger_quantity, fat_finger_notional, insufficient_margin_risk, leverage_limit_exceeded,
  concentration_limit_exceeded, ◌>>=◌, ◌>>◌, raise_if,
}
use quant_stuff.Orders.Validate.{Value}
use quant_stuff.Action.{Action, check, raise_when, ◌>>=◌ as ◌and_then◌, ◌>>◌ as ◌then◌}
use quant_stuff.Risk.Limits.{RiskLimits, positive_risk_scalar}
use quant_stuff.Risk.State.{
  PortfolioRiskState, amount, price_of, intraday_drawdown, free_margin, netted, gross_exposure,
  symbols,
}

module _ {F : Type 0} ⦃f : Float F⦄ where
  -- 1. a number of the order must be finite and positive
  unfoldable pub sound : F → Result (Unit {0})
  sound x = raise_if (not (f.is_finite x) || f.le x nought) non_finite_risk_input

  unfoldable pub sound_price : Option F → Result (Unit {0})
  unfolding sound
  sound_price none = ok tt
  sound_price (some x) = sound x

  unfoldable pub market_price : Value F → Result (Option F)
  market_price Value.null = ok none
  market_price v = do x ← positive_risk_scalar v; ok (some x)

  unfoldable pub sanitise : Order F → Value F → Result (Option F)
  sanitise order current_price = do
    sound order.quantity
    sound_price order.price
    market_price current_price

  -- 4. the market's price, else the order's, else the last one of its symbol
  unfoldable pub candidate_price : Option F → Order F → PortfolioRiskState F → Option F
  candidate_price (some p) order s = some p
  candidate_price none order s = elim order.price [
    | some p ↦ some p
    | none ↦ lookup order.symbol s.current_prices
  ]

  unfoldable pub reference_price : Option F → Order F → PortfolioRiskState F → Result F
  unfolding candidate_price
  reference_price given order s = elim (candidate_price given order s) [
    | none ↦ err non_finite_risk_input
    | some p ↦ if f.is_finite p && not (f.le p nought) then ok p else err non_finite_risk_input
  ]

  -- 6. the units of the position that an order of a side may still close
  unfoldable pub closable : OrderSide → F → F → F
  closable OrderSide.buy position leaves =
      fmax nought (f.sub (f.sub nought position) (fmax nought leaves))
  closable OrderSide.sell position leaves =
      fmax nought (f.sub position (absolute (fmin nought leaves)))

  abbrev pub closable_units : Order F → PortfolioRiskState F → F
  closable_units order s =
      closable order.side (amount order.symbol s.positions) (amount order.symbol s.pending_leaves)

  unfoldable pub required_margin : Order F → F → PortfolioRiskState F → F
  required_margin order ref s =
      f.mul (fmax nought (f.sub order.quantity (closable_units order s))) ref

  unfoldable pub check_margin :
      RiskLimits F → Order F → F → PortfolioRiskState F → Result (Unit {0})
  check_margin limits order ref s =
      let margin = required_margin order ref s in
      if lt nought margin
      then (free_margin s >>= λ free.
          raise_if (lt (f.sub free margin) limits.min_free_margin) insufficient_margin_risk)
      else ok tt

  -- the price at which a symbol is valued
  unfoldable pub valuation : Order F → F → PortfolioRiskState F → String → Result F
  valuation order ref s sym =
      if str_eq sym order.symbol then ok ref else price_of sym s.current_prices

  unfoldable pub add_value : Result F → F → F → Result F
  add_value price position equity =
      if f.le (absolute position) (f.lit 1 12)
      then ok equity
      else (price >>= λ p. ok (f.add equity (f.mul position p)))

  -- 7. and 8. the equity with the order's symbol at the reference price
  unfoldable pub projected_from : Order F → F → PortfolioRiskState F → Dict F → F → Result F
  projected_from order ref s [] equity = ok equity
  projected_from order ref s ((sym, position) ∷ positions) equity = do
    sum ← add_value (valuation order ref s sym) position equity
    projected_from order ref s positions sum

  unfoldable pub projected_equity : Order F → F → PortfolioRiskState F → Result F
  projected_equity order ref s = projected_from order ref s s.positions s.cash

  -- the signed quantity of an order
  unfoldable pub signed_quantity : OrderSide → F → F
  signed_quantity OrderSide.buy quantity = quantity
  signed_quantity OrderSide.sell quantity = f.sub nought quantity

  abbrev pub order_delta : Order F → F
  order_delta order = signed_quantity order.side order.quantity

  -- whether the order, or its leaves, go against the position
  unfoldable pub reduces : F → F → F → Bool
  reduces position delta leaves =
      (lt nought position && (lt delta nought || lt leaves nought))
      || (lt position nought && (lt nought delta || lt nought leaves))

  -- the exposure of the order's symbol, in units, once the order works
  unfoldable pub projected_exposure : F → F → F → F
  unfolding reduces
  projected_exposure delta position leaves =
      let projected = f.add leaves delta in
      netted (reduces position delta projected) position projected

  abbrev pub target_exposure : Order F → F → PortfolioRiskState F → F
  target_exposure order ref s =
      f.mul
        (projected_exposure (order_delta order) (amount order.symbol s.positions)
          (amount order.symbol s.pending_leaves))
        ref

  -- A round of the loop over all symbols: the gross and the net notional.
  unfoldable pub add_notional : Order F → F → PortfolioRiskState F → String → F × F → Result (F × F)
  add_notional order ref s sym (gross, net) =
      let position = amount sym s.positions in
      let leaves = amount sym s.pending_leaves in
      if str_eq sym order.symbol
      then ok (
        f.add gross (f.mul (projected_exposure (order_delta order) position leaves) ref),
        f.add net (f.mul (f.add position (f.add leaves (order_delta order))) ref),
      )
      else (if f.le (absolute position) (f.lit 1 12) && f.le (absolute leaves) (f.lit 1 12)
          then ok (gross, net)
          else (price_of sym s.current_prices >>= λ p. ok (
            f.add gross (f.mul (gross_exposure position leaves) p),
            f.add net (f.mul (f.add position leaves) p),
          )))

  unfoldable pub notionals_from :
      Order F → F → PortfolioRiskState F → List String → F × F → Result (F × F)
  notionals_from order ref s [] sums = ok sums
  notionals_from order ref s (sym ∷ syms) sums = do
    next ← add_notional order ref s sym sums
    notionals_from order ref s syms next

  unfoldable pub projected_notionals :
      (List String → List String) → Order F → F → PortfolioRiskState F → Result (F × F)
  projected_notionals listing order ref s =
      notionals_from order ref s (listing (add order.symbol (symbols s))) (nought, nought)

  -- 7. to 9. the ratios to the projected equity
  unfoldable pub check_ratios : RiskLimits F → F → F × F → F → Result (Unit {0})
  check_ratios limits equity (gross, net) target = do
    raise_if (lt limits.max_gross_leverage (f.div gross equity)) leverage_limit_exceeded
    raise_if (lt limits.max_net_leverage (f.div (absolute net) equity)) leverage_limit_exceeded
    raise_if (lt limits.max_concentration_nav_pct (f.div target equity))
        concentration_limit_exceeded

  -- 4. to 9.
  unfoldable pub screen :
      (List String → List String)
      → RiskLimits F
      → Order F
      → Option F
      → PortfolioRiskState F
      → Result (Unit {0})
  screen listing limits order given s = do
    ref ← reference_price given order s
    raise_if (lt limits.max_order_notional (f.mul order.quantity ref)) fat_finger_notional
    check_margin limits order ref s
    equity ← projected_equity order ref s
    raise_if (f.le equity nought) leverage_limit_exceeded
    sums ← projected_notionals listing order ref s
    check_ratios limits equity sums (target_exposure order ref s)

  unfoldable pub validate_order :
      (List String → List String)
      → RiskLimits F
      → Order F
      → Value F
      → Action (PortfolioRiskState F) (Unit {0})
  validate_order listing limits order current_price =
      check (sanitise order current_price) and_then λ given. intraday_drawdown and_then λ drawdown.
      raise_when (f.le limits.max_intraday_drawdown_pct drawdown) drawdown_limit_exceeded
      then raise_when (lt limits.max_order_qty order.quantity) fat_finger_quantity
      then (λ s. (screen listing limits order given s, s))
