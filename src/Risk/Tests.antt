-- ===== src/Risk/Tests.antt =====
-- The firewall of src/quant/execution/risk.py at concrete values.
use quant_stuff.Prelude.{◌≡◌, ◌≢◌, ◌↔◌, refl, Option, some, String, List, [], ◌∷◌}
use quant_stuff.Prelude.Dict.{lookup, insert, erase, add, member, values}
use quant_stuff.Float.{Fixed, Fixed-IsOrdered, decimal, fixed_float, ◌≼◌}
use quant_stuff.Orders.Types.{
  Order, Result, OrderSide, ok, err, insufficient_margin_risk, non_finite_risk_input,
}
use quant_stuff.Orders.Validate.{Value}
use quant_stuff.Orders.Tests.{limit_buy}
use quant_stuff.Risk.Limits.{RiskLimits, positive_risk_scalar, risk_symbol}
use quant_stuff.Risk.State.{
  PortfolioRiskState, current_equity, equity_from, add_holding, is_held, price_of, amount,
  drawdown_of, intraday_drawdown, free_margin, locked_from, add_keys, netted,
}
use quant_stuff.Risk.Updates.{
  update_fill, filled_state, refresh_peak, reconcile_leaves, remaining, spent, flatten, moved, paid,
  risk_side,
}
use quant_stuff.Risk.Updates.Leaves.{Shrinks}
use quant_stuff.Risk.Firewall.{
  validate_order, sanitise, sound_price, market_price, screen, reference_price, check_margin,
  required_margin, closable, projected_equity, projected_from, add_value, valuation,
  signed_quantity, reduces, projected_exposure, add_notional, notionals_from, projected_notionals,
  check_ratios,
}
use quant_stuff.Risk.Firewall.Within.{IsFiniteLimits, Figures}
use quant_stuff.Risk.Firewall.Decides.{Admits, validate_order_iff}
use quant_stuff.Risk.Firewall.Closing.{validate_order-closing}
use quant_stuff.Risk.Session.{Call, run, run-peak, update_fill-leaves}

abbrev desk_limits : RiskLimits Fixed
desk_limits = record {
  max_order_notional = decimal 1000 0;
  max_order_qty = decimal 50 0;
  max_gross_leverage = decimal 2 0;
  max_net_leverage = decimal 2 0;
  max_concentration_nav_pct = decimal 1 0;
  max_intraday_drawdown_pct = decimal 0 5_000_000;
  min_free_margin = decimal 10 0;
}

abbrev desk_limits_finite : IsFiniteLimits desk_limits
desk_limits_finite = record {
  notional_finite = refl;
  qty_finite = refl;
  gross_finite = refl;
  net_finite = refl;
  concentration_finite = refl;
  margin_finite = refl;
}

-- no cash is free, and five shares are held
abbrev invested : PortfolioRiskState Fixed
invested = record {
  cash = decimal 0 0;
  positions = ("AAPL", decimal 5 0) ∷ [];
  pending_leaves = [];
  current_prices = ("AAPL", decimal 20 0) ∷ [];
  peak_equity = decimal 100 0;
  initial_equity = decimal 100 0;
}

abbrev as_listed : List String → List String
as_listed syms = syms

abbrev selling : Order Fixed
selling = record limit_buy {
  side = OrderSide.sell;
  quantity = decimal 3 0;
  price = some (decimal 20 0);
}

-- The verdict on an order in that state.
abbrev verdict_on : Order Fixed → Result (Unit {0})
verdict_on order = (validate_order as_listed desk_limits order Value.null invested).0

sells : verdict_on selling ≡ ok tt
unfolding validate_order sanitise sound_price market_price intraday_drawdown current_equity
    equity_from add_holding is_held price_of drawdown_of screen reference_price check_margin
    required_margin closable amount projected_equity projected_from add_value valuation
    projected_notionals notionals_from add_notional projected_exposure netted reduces
    signed_quantity add_keys check_ratios lookup add member
sells = refl

-- One share more than are held needs margin.
sells_short : verdict_on (record selling { quantity = decimal 6 0 }) ≡ err insufficient_margin_risk
unfolding validate_order sanitise sound_price market_price intraday_drawdown current_equity
    equity_from add_holding is_held price_of drawdown_of screen reference_price check_margin
    required_margin closable amount free_margin locked_from lookup
sells_short = refl

validate_order_iff_example : (verdict_on selling ≡ ok tt) ↔ (
    (given : Option Fixed) × (equity : Fixed) × (g : Figures Fixed) × Admits as_listed desk_limits
      selling Value.null invested given equity g)
validate_order_iff_example =
    validate_order_iff Fixed-IsOrdered desk_limits desk_limits_finite as_listed selling Value.null
      invested

validate_order-closing_example : verdict_on selling ≢ err insufficient_margin_risk
unfolding closable amount lookup
validate_order-closing_example =
    validate_order-closing Fixed-IsOrdered as_listed desk_limits selling Value.null invested refl
      refl refl

-- A fill of the sale, a price of nought that is refused, a higher price and another check.
abbrev trading : List (Call Fixed)
trading =
    Call.fill (Value.str "AAPL") (Value.flt (decimal 3 0)) (Value.flt (decimal 22 0))
      (Value.side_member OrderSide.sell)
    ∷ Call.new_price (Value.str "AAPL") (Value.flt (decimal 0 0))
    ∷ Call.new_price (Value.str "AAPL") (Value.flt (decimal 30 0))
    ∷ Call.check_order as_listed desk_limits selling Value.null
    ∷ []

run-peak_example : invested.peak_equity ≼ (run trading invested).peak_equity
run-peak_example = run-peak Fixed-IsOrdered trading invested refl

-- A bid for four shares is pending.
abbrev bidding : PortfolioRiskState Fixed
bidding = record invested { pending_leaves = ("AAPL", decimal 4 0) ∷ [] }

abbrev fill_of : OrderSide → PortfolioRiskState Fixed → PortfolioRiskState Fixed
fill_of side s =
    (update_fill (Value.str "AAPL") (Value.flt (decimal 3 0)) (Value.flt (decimal 22 0))
      (Value.side_member side) s).1

update_fill-leaves_example :
    Shrinks
      (amount "AAPL" bidding.pending_leaves)
      (amount "AAPL" (fill_of OrderSide.buy bidding).pending_leaves)
unfolding values
update_fill-leaves_example =
    update_fill-leaves Fixed-IsOrdered (Value.str "AAPL") (Value.flt (decimal 3 0))
      (Value.flt (decimal 22 0)) (Value.side_member OrderSide.buy) bidding "AAPL" (refl, tt)

-- A fill of a sale takes from a pending bid.
bid_lost : (fill_of OrderSide.sell bidding).pending_leaves ≡ ("AAPL", decimal 1 0) ∷ []
unfolding update_fill filled_state reconcile_leaves remaining spent refresh_peak current_equity
    equity_from add_holding is_held price_of amount flatten moved paid positive_risk_scalar
    risk_symbol risk_side lookup insert erase
bid_lost = refl

-- A fill raises for the missing price of another symbol, and is booked.
booked :
    (update_fill
      (Value.str "AAPL")
      (Value.flt (decimal 3 0))
      (Value.flt (decimal 22 0))
      (Value.side_member OrderSide.sell)
      (record invested { positions = ("AAPL", decimal 5 0) ∷ ("MSFT", decimal 1 0) ∷ [] }))
    ≡ (
      err non_finite_risk_input,
      record invested {
        cash = decimal 66 0;
        positions = ("AAPL", decimal 2 0) ∷ ("MSFT", decimal 1 0) ∷ [];
        current_prices = ("AAPL", decimal 22 0) ∷ [];
      },
    )
unfolding update_fill filled_state reconcile_leaves remaining spent refresh_peak current_equity
    equity_from add_holding is_held price_of amount flatten moved paid positive_risk_scalar
    risk_symbol risk_side lookup insert erase
booked = refl
