-- ===== src/Parent/Shortfall/Additive.antt =====
-- The additive identity of the shortfall in src/quant/execution/parent_order.py.
use quant_stuff.Prelude.{◌≡◌, ◌≢◌, true}
use quant_stuff.Float.{Float, lt, nought}
use quant_stuff.Orders.Types.{Error, Result, ok, err, mass_conservation}
use quant_stuff.Parent.Shortfall.{ImplementationShortfallReport}
use quant_stuff.Parent.Shortfall.Costs.{Cost}
use quant_stuff.Parent.Fills.{ParentOrder, parent_leaves, average_execution_price, is_completed}

module _ {F : Type 0} ⦃f : Float F⦄ where
  -- What a report says of the order that it is computed for.
  pub record Attributes (p : ParentOrder F) (r : ImplementationShortfallReport F) : Type 0 where
    pub additive :
        r.total_shortfall
        ≡ f.add (f.add (f.add r.delay_cost r.price_impact) r.fees_paid) r.opportunity_cost
    pub delay : Cost p.side p.filled_quantity p.arrival_price p.decision_price r.delay_cost
    pub impact :
        Cost p.side p.filled_quantity p.decision_price (average_execution_price p) r.price_impact
    pub opportunity :
        Cost p.side (parent_leaves p) p.arrival_price r.terminal_price r.opportunity_cost
    pub fees : r.fees_paid ≡ p.total_fees
    pub in_bps :
        r.total_shortfall_bps
        ≡ f.mul r.total_shortfall (f.div (f.lit 10_000 0) (f.mul p.total_quantity p.arrival_price))
    pub all_filled : r.filled_quantity ≡ p.filled_quantity
    pub rest_unfilled : r.unfilled_quantity ≡ parent_leaves p
    pub no_opportunity : is_completed p ≡ true → r.opportunity_cost ≡ nought
    pub finite_total : f.is_finite r.total_shortfall ≡ true
    pub benchmarks : (r.arrival_price ≡ p.arrival_price) × (r.decision_price ≡ p.decision_price)
    pub arrival_positive : lt nought r.arrival_price ≡ true
    pub decision_positive : lt nought r.decision_price ≡ true
    pub terminal_positive : lt nought r.terminal_price ≡ true

  -- how the computation may end
  pub data Outcome (p : ParentOrder F) : Result (ImplementationShortfallReport F) → Type 0 where
    reported : {r : ImplementationShortfallReport F} → Attributes p r → Outcome p (ok r)
    refused : {e : Error} → e ≢ mass_conservation → Outcome p (err e)

  -- the numbers of a report that the costs are made of, and the total
  record FiniteNumbers (r : ImplementationShortfallReport F) : Type 0 where
    total : f.is_finite r.total_shortfall ≡ true
    filled : f.is_finite r.filled_quantity ≡ true
    unfilled : f.is_finite r.unfilled_quantity ≡ true
    average : f.is_finite r.average_price ≡ true
    arrival : f.is_finite r.arrival_price ≡ true
    decision : f.is_finite r.decision_price ≡ true
    terminal : f.is_finite r.terminal_price ≡ true
