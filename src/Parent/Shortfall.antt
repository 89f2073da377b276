-- ===== src/Parent/Shortfall.antt =====
-- ImplementationShortfallReport and compute_implementation_shortfall of src/quant/execution/parent_order.py.
pub mod Costs
pub mod Additive
use quant_stuff.Prelude.{
  ◌≡◌, ◌≢◌, refl, inl, inr, Bool, true, false, not, List, [], ◌∷◌, ◌&&◌, ◌||◌, if◌then◌else◌, arith,
  Bool-cases,
}
use quant_stuff.Float.{Float, IsOrdered, lt, nought, absolute}
use quant_stuff.Float.Order.{lt_of_not-le}
use quant_stuff.Orders.Types.{
  Error, OrderSide, Result, ok, err, ◌>>=◌, ◌>>◌, raise_if, non_finite_sor_input, mass_conservation,
  zero_division_error,
}
use quant_stuff.Orders.Validate.{Value}
use quant_stuff.Action.{Result-cases}
use quant_stuff.Parent.Fills.{
  ParentOrder, mass_tolerance, positive_sor_scalar, parent_leaves, average_execution_price,
  is_completed, sor_scalar, finite_sor,
}

pub record ImplementationShortfallReport (F : Type 0) : Type 0 where
  pub delay_cost : F
  pub price_impact : F
  pub spread_slippage : F
  pub fees_paid : F
  pub opportunity_cost : F
  pub total_shortfall : F
  pub total_shortfall_bps : F
  pub delay_cost_bps : F
  pub price_impact_bps : F
  pub opportunity_cost_bps : F
  pub fees_bps : F
  pub filled_quantity : F
  pub unfilled_quantity : F
  pub average_price : F
  pub arrival_price : F
  pub decision_price : F
  pub terminal_price : F

unfoldable pub report_numbers : {F : Type 0} → ImplementationShortfallReport F → List F
report_numbers r =
    r.delay_cost ∷ r.price_impact ∷ r.spread_slippage ∷ r.fees_paid ∷ r.opportunity_cost
    ∷ r.total_shortfall ∷ r.total_shortfall_bps ∷ r.delay_cost_bps ∷ r.price_impact_bps
    ∷ r.opportunity_cost_bps ∷ r.fees_bps ∷ r.filled_quantity ∷ r.unfilled_quantity
    ∷ r.average_price ∷ r.arrival_price ∷ r.decision_price ∷ r.terminal_price ∷ []

module _ {F : Type 0} ⦃f : Float F⦄ where
  unfoldable pub every_finite : List F → Bool
  every_finite [] = true
  every_finite (x ∷ xs) = f.is_finite x && every_finite xs

  -- the sum of the four components, from the left
  unfoldable pub sum_components : ImplementationShortfallReport F → F
  sum_components r =
      f.add (f.add (f.add r.delay_cost r.price_impact) r.fees_paid) r.opportunity_cost

  unfoldable pub new_shortfall_report :
      ImplementationShortfallReport F → Result (ImplementationShortfallReport F)
  new_shortfall_report r = do
    raise_if (not (every_finite (report_numbers r))) non_finite_sor_input
    raise_if (lt r.filled_quantity nought || lt r.unfilled_quantity nought) non_finite_sor_input
    raise_if
        (f.le r.arrival_price nought
          || f.le r.decision_price nought
          || f.le r.terminal_price nought)
        non_finite_sor_input
    raise_if (lt mass_tolerance r.filled_quantity && f.le r.average_price nought)
        non_finite_sor_input
    raise_if (lt mass_tolerance (absolute (f.sub r.total_shortfall (sum_components r))))
        mass_conservation
    ok r

  unfoldable pub resolved_terminal : Value F → ParentOrder F → Result F
  resolved_terminal Value.null p =
      ok
        (if lt mass_tolerance p.filled_quantity then average_execution_price p else p.arrival_price)
  resolved_terminal v p = positive_sor_scalar v

  unfoldable pub side_sign : OrderSide → F
  side_sign OrderSide.buy = f.lit 1 0
  side_sign OrderSide.sell = f.sub nought (f.lit 1 0)

  -- sign * q * (a - b), where `q` is above the tolerance
  unfoldable pub drift : OrderSide → F → F → F → F
  drift side q a b =
      if lt mass_tolerance q then f.mul (f.mul (side_sign side) q) (f.sub a b) else nought

  -- `10_000.0 / x`, which raises at nought
  unfoldable pub bps_scale : F → Result F
  bps_scale x =
      if f.le x nought && f.le nought x
      then err zero_division_error
      else ok (f.div (f.lit 10_000 0) x)

  -- the figures that are handed to the constructor of the report
  unfoldable pub attribution : F → F → ParentOrder F → ImplementationShortfallReport F
  attribution terminal scale p =
      let unfilled = parent_leaves p in
      let average = average_execution_price p in
      let delay = drift p.side p.filled_quantity p.decision_price p.arrival_price in
      let impact = drift p.side p.filled_quantity average p.decision_price in
      let opportunity = drift p.side unfilled terminal p.arrival_price in
      let total = f.add (f.add (f.add delay impact) p.total_fees) opportunity in
      record {
        delay_cost = delay;
        price_impact = impact;
        spread_slippage = p.cum_spread_slippage;
        fees_paid = p.total_fees;
        opportunity_cost = opportunity;
        total_shortfall = total;
        total_shortfall_bps = f.mul total scale;
        delay_cost_bps = f.mul delay scale;
        price_impact_bps = f.mul impact scale;
        opportunity_cost_bps = f.mul opportunity scale;
        fees_bps = f.mul p.total_fees scale;
        filled_quantity = p.filled_quantity;
        unfilled_quantity = unfilled;
        average_price = average;
        arrival_price = p.arrival_price;
        decision_price = p.decision_price;
        terminal_price = terminal;
      }

  unfoldable pub compute_implementation_shortfall :
      Value F → ParentOrder F → Result (ImplementationShortfallReport F)
  compute_implementation_shortfall v p = do
    terminal ← resolved_terminal v p
    scale ← bps_scale (f.mul p.total_quantity p.arrival_price)
    new_shortfall_report (attribution terminal scale p)
