-- ===== src/Gateway/Matching.antt =====
-- `set_market_price` of PaperExecutionGateway in src/quant/execution/gateway.py.
pub mod Rounds
pub mod Loop
use quant_stuff.Prelude.{
  ℕ, suc, Bool, true, false, not, ◌&&◌, ◌||◌, Option, none, some, String, List, [], ◌∷◌, strip,
  str_eq, if◌then◌else◌,
}
use quant_stuff.Prelude.Dict.{lookup, insert, values}
use quant_stuff.Float.{Float, nought}
use quant_stuff.Orders.Types.{
  Order, ExecutionReport, OrderSide, filled, is_active, Result, ok, err, assertion_error,
}
use quant_stuff.Orders.Validate.{Value, positive_scalar}
use quant_stuff.Idempotency.{text_argument}
use quant_stuff.Action.{Action, pure, get, modify, check, ◌>>=◌, ◌>>◌}
use quant_stuff.Gateway.Types.{
  Gateway, World, is_buy, is_limit, report_id, exchange_id, count_report, deregister, fee_of,
  settle, make_report, apply_report,
}

module _ {F : Type 0} ⦃f : Float F⦄ where
  -- `is_match`: whether a price meets a limit
  abbrev pub meets : OrderSide → F → F → Bool
  meets side p price = (is_buy side && f.le price p) || (not (is_buy side) && f.le p price)

  -- whether an order is looked at: it is active, a limit order and for the symbol
  unfoldable pub rests_for : String → Order F → Bool
  rests_for symbol o = str_eq o.symbol symbol && is_active o && is_limit o.order_type

  unfoldable pub match_report : World → ℕ → String → F → Order F → F → ExecutionReport F
  match_report w n symbol price o fee = record {
    report_id = report_id w n;
    cl_ord_id = o.cl_ord_id;
    exchange_order_id = exchange_id o;
    symbol = symbol;
    side = o.side;
    exec_type = filled;
    last_quantity = o.quantity;
    last_price = price;
    cum_quantity = o.quantity;
    leaves_quantity = nought;
    cum_quote_amount = f.mul price o.quantity;
    average_price = price;
    fee = fee;
    timestamp_ns = w.now n;
    text = "Resting limit order matched";
  }

  -- the fill of a resting order at the price of the market
  unfoldable pub fill_resting :
      World → String → F → ℕ → Action (Gateway F) (Option (ExecutionReport F))
  fill_resting w symbol price ref = do
    g ← get
    let o = g.store ref
    let notional = f.mul price o.quantity
    let fee = fee_of g notional
    modify (settle o.side symbol o.quantity notional fee)
    n ← count_report
    r ← make_report (match_report w n symbol price o fee)
    apply_report ref r
    deregister o.cl_ord_id
    pure (some r)

  -- one round of the loop
  unfoldable pub match_order :
      World → String → F → ℕ → Action (Gateway F) (Option (ExecutionReport F))
  match_order w symbol price ref g =
      let o = g.store ref in
      if rests_for symbol o
      then elim o.price [
        | none ↦ (err assertion_error, g)
        | some p ↦ if meets o.side p price then fill_resting w symbol price ref g else (ok none, g)
      ]
      else (ok none, g)

  abbrev pub with_report :
      Option (ExecutionReport F) → List (ExecutionReport F) → List (ExecutionReport F)
  with_report none rs = rs
  with_report (some r) rs = r ∷ rs

  -- the loop over the orders as they stand at its start
  unfoldable pub match_orders :
      World → String → F → List ℕ → Action (Gateway F) (List (ExecutionReport F))
  match_orders w symbol price [] = pure []
  match_orders w symbol price (ref ∷ refs) = do
    r ← match_order w symbol price ref
    rs ← match_orders w symbol price refs
    pure (with_report r rs)

  unfoldable pub set_market_price :
      World → Value F → Value F → Action (Gateway F) (List (ExecutionReport F))
  set_market_price w symbol price = do
    s ← check (text_argument symbol)
    x ← check (positive_scalar price)
    modify λ g. record g { market_prices = insert (strip s) x g.market_prices }
    g ← get
    match_orders w (strip s) x (values g.orders)
