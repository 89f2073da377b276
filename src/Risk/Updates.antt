-- ===== src/Risk/Updates.antt =====
-- The updates of PortfolioRiskState in src/quant/execution/risk.py: a new price and a fill. A dictionary
-- that is changed before a later step raises stays changed.
pub mod Leaves
use quant_stuff.Prelude.{Bool, false, none, some, String, if◌then◌else◌}
use quant_stuff.Prelude.Dict.{Dict, lookup, insert, erase}
use quant_stuff.Float.{Float, lt, fmin, fmax, nought, absolute}
use quant_stuff.Orders.Types.{OrderSide, ok, err, non_finite_risk_input, Result}
use quant_stuff.Orders.Validate.{Value}
use quant_stuff.Action.{Action, check, modify, ◌>>=◌, ◌>>◌}
use quant_stuff.Risk.Limits.{risk_symbol, positive_risk_scalar}
use quant_stuff.Risk.State.{PortfolioRiskState, amount, current_equity}

-- `isinstance(side, OrderSide)`
unfoldable pub risk_side : {F : Type 0} → Value F → Result OrderSide
risk_side (Value.side_member side) = ok side
risk_side _ = err non_finite_risk_input

module _ {F : Type 0} ⦃f : Float F⦄ where
  -- the high-water mark after a change
  unfoldable pub refresh_peak : Action (PortfolioRiskState F) (Unit {0})
  refresh_peak s = elim (current_equity s) [
    | err e ↦ (err e, s)
    | ok equity ↦ (ok tt, record s { peak_equity = fmax s.peak_equity equity })
  ]

  unfoldable pub update_price : Value F → Value F → Action (PortfolioRiskState F) (Unit {0})
  update_price symbol price = do
    sym ← check (risk_symbol symbol)
    p ← check (positive_risk_scalar price)
    modify λ s. record s { current_prices = insert sym p s.current_prices }
    refresh_peak

  -- what a fill leaves of the pending leaves of its symbol
  unfoldable pub remaining : OrderSide → F → F → F
  remaining OrderSide.buy leaves qty =
      if lt nought leaves then fmax nought (f.sub leaves qty) else leaves
  remaining OrderSide.sell leaves qty =
      if lt leaves nought
      then fmin nought (f.add leaves qty)
      else (if lt nought leaves then fmax nought (f.sub leaves qty) else leaves)

  -- whether an entry is deleted: a buy looks at leaves that it has lowered only
  unfoldable pub spent : OrderSide → F → F → Bool
  spent OrderSide.buy old left = if lt nought old then f.le left (f.lit 1 12) else false
  spent OrderSide.sell old left = f.le (absolute left) (f.lit 1 12)

  unfoldable pub reconcile_leaves : OrderSide → String → F → Dict F → Dict F
  reconcile_leaves side sym qty pending = elim (lookup sym pending) [
    | none ↦ pending
    | some leaves ↦
        let left = remaining side leaves qty in
        if spent side leaves left then erase sym pending else insert sym left pending
  ]

  -- inventory that is nought up to 1e-12 is nought
  unfoldable pub flatten : F → F
  flatten x = if lt (absolute x) (f.lit 1 12) then nought else x

  unfoldable pub moved : OrderSide → F → F → F
  moved OrderSide.buy position qty = f.add position qty
  moved OrderSide.sell position qty = f.sub position qty

  unfoldable pub paid : OrderSide → F → F → F
  paid OrderSide.buy cash notional = f.sub cash notional
  paid OrderSide.sell cash notional = f.add cash notional

  -- the state with a fill in it, its peak not yet raised
  unfoldable pub filled_state :
      OrderSide → String → F → F → PortfolioRiskState F → PortfolioRiskState F
  filled_state side sym qty price s = record s {
    cash = paid side s.cash (f.mul qty price);
    positions = insert sym (flatten (moved side (amount sym s.positions) qty)) s.positions;
    pending_leaves = reconcile_leaves side sym qty s.pending_leaves;
    current_prices = insert sym price s.current_prices;
  }

  unfoldable pub update_fill :
      Value F → Value F → Value F → Value F → Action (PortfolioRiskState F) (Unit {0})
  update_fill symbol filled_qty price side = do
    sym ← check (risk_symbol symbol)
    qty ← check (positive_risk_scalar filled_qty)
    p ← check (positive_risk_scalar price)
    d ← check (risk_side side)
    modify (filled_state d sym qty p)
    refresh_peak
