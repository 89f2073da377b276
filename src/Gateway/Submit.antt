-- ===== src/Gateway/Submit.antt =====
-- `submit_order` of PaperExecutionGateway in src/quant/execution/gateway.py, step by step.

pub mod Steps
pub mod Limits
pub mod Cash
use quant_stuff.Prelude.{
  ℕ, suc, pos, Bool, true, false, not, ◌&&◌, ◌||◌, Option, none, some, String, if◌then◌else◌,
}
use quant_stuff.Prelude.Dict.{lookup, contains, insert, erase}
use quant_stuff.Float.{Float, lt, fmin, fmax, nought}
use quant_stuff.Orders.Types.{
  Order, ExecutionReport, OrderSide, buy, sell, OrderType, market, limit, stop_limit, pegged,
  OrderState, new, filled, is_terminal, Error, Result, ok, err, invalid_order_input,
  invalid_state_transition, insufficient_margin, gateway_disconnected, assertion_error,
}
use quant_stuff.Fsm.{is_pending_new, transition, Stamp, Report}
use quant_stuff.Idempotency.{register_order}
use quant_stuff.Action.{Action, pure, raise, get, modify, raise_when, ◌>>=◌, ◌>>◌}
use quant_stuff.Gateway.Types.{
  Gateway, World, write, default_id, report_id, count_report, deregister, slippage, fee_of, settle,
  make_report, apply_report, sleep, is_buy, is_limit,
}

abbrev pub is_market : OrderType → Bool
is_market market = true
is_market _ = false

module _ {F : Type 0} where
  -- `self._idempotency_router.register_order(order)` and `self._orders[...] = order`
  unfoldable pub register : ℕ → Action (Gateway F) (Unit {0})
  register ref g =
      let o = g.store ref in
      let (result, router) = register_order o.cl_ord_id ref g.router in
      elim result [
        | ok _ ↦ (ok tt, record g { router = router; orders = insert o.cl_ord_id ref g.orders })
        | err e ↦ (err e, record g { router = router })
      ]

  -- `if order.exchange_order_id is None`
  unfoldable pub identify : Order F → Order F
  identify o = record o {
    exchange_order_id = some (elim o.exchange_order_id [ none ↦ default_id o | some id ↦ id ]);
  }

  -- the clean-up of a registered order, and the exception that follows
  unfoldable pub withdraw : {A : Type 0} → ℕ → Error → Action (Gateway F) A
  withdraw ref e = do
    g ← get
    let id = (g.store ref).cl_ord_id
    deregister id
    modify λ g. record g { orders = erase id g.orders }
    raise e

  module _ ⦃f : Float F⦄ where
    abbrev pub one : F
    one = f.lit 1 0

    -- the price that a buy is estimated and filled at, given the market's
    unfoldable pub buy_price : Gateway F → Order F → F → F
    buy_price g o mkt =
        let slipped = f.mul mkt (f.add one (slippage g)) in
        if is_limit o.order_type
        then elim o.price [ none ↦ slipped | some p ↦ fmin p slipped ]
        else slipped

    unfoldable pub sell_price : Gateway F → Order F → F → F
    sell_price g o mkt =
        let slipped = f.mul mkt (f.sub one (slippage g)) in
        if is_limit o.order_type
        then elim o.price [ none ↦ slipped | some p ↦ fmax p slipped ]
        else slipped

    -- 2. and the type of the order
    unfoldable pub admissible : Order F → Action (Gateway F) (Unit {0})
    admissible o = do
      raise_when (is_terminal o) invalid_state_transition
      raise_when (not (is_pending_new o.state)) invalid_state_transition
      raise_when (not (is_market o.order_type || is_limit o.order_type)) invalid_order_input
      raise_when (is_limit o.order_type && elim o.price [ none ↦ true | some p ↦ f.le p nought ])
          invalid_order_input

    -- 5. the estimate for a buy: a market order wants a price of the market
    unfoldable pub quote : Gateway F → Order F → Result F
    quote g o = elim o.order_type [
      | market ↦ elim (lookup o.symbol g.market_prices) [
        | none ↦ err invalid_order_input
        | some mkt ↦ ok (buy_price g o mkt)
      ]
      | _ ↦ elim o.price [
        | none ↦ err assertion_error
        | some p ↦ ok (elim (lookup o.symbol g.market_prices) [
          | none ↦ p
          | some mkt ↦ if f.le mkt p then buy_price g o mkt else p
        ])
      ]
    ]

    -- a missing price is cleaned up after, a failed assertion is not
    unfoldable pub quoted : ℕ → Result F → Action (Gateway F) F
    quoted ref (ok price) = pure price
    quoted ref (err assertion_error) = raise assertion_error
    quoted ref (err e) = withdraw ref e

    unfoldable pub estimate : ℕ → Action (Gateway F) F
    estimate ref g = quoted ref (quote g (g.store ref)) g

    unfoldable pub check_margin : ℕ → Action (Gateway F) (Unit {0})
    check_margin ref = do
      price ← estimate ref
      g ← get
      let notional = f.mul price (g.store ref).quantity
      let required = f.add notional (fee_of g notional)
      if lt g.cash required then withdraw ref insufficient_margin else pure tt

    -- 6. PENDING_NEW to NEW
    unfoldable pub acknowledge : ℕ → ℕ → Action (Gateway F) (Unit {0})
    acknowledge now ref g =
        let (result, o) = transition now (g.store ref) new (Stamp.time (pos now)) Report.unset in
        elim result [ err e ↦ (err e, write ref o g) | ok _ ↦ (ok tt, write ref (identify o) g) ]

    -- 7. whether the order is matched at once
    unfoldable pub is_marketable : Gateway F → Order F → Bool
    is_marketable g o =
        if is_market o.order_type
        then true
        else if is_limit o.order_type
        then elim (lookup o.symbol g.market_prices) [
          | none ↦ false
          | some mkt ↦ elim o.price [
            | none ↦ false
            | some p ↦ (is_buy o.side && f.le mkt p) || (not (is_buy o.side) && f.le p mkt)
          ]
        ]
        else false

    abbrev pub known_id : Order F → String
    known_id o = elim o.exchange_order_id [ none ↦ default_id o | some id ↦ id ]

    -- the report of a fill of the whole order at a price
    abbrev pub fill_report : World → ℕ → ℕ → Order F → String → F → F → String → ExecutionReport F
    fill_report w now n o exchange_order_id price fee text = record {
      report_id = report_id w n;
      cl_ord_id = o.cl_ord_id;
      exchange_order_id = exchange_order_id;
      symbol = o.symbol;
      side = o.side;
      exec_type = filled;
      last_quantity = o.quantity;
      last_price = price;
      cum_quantity = o.quantity;
      leaves_quantity = nought;
      cum_quote_amount = f.mul price o.quantity;
      average_price = price;
      fee = fee;
      timestamp_ns = now;
      text = text;
    }

    -- the fill at a market price
    unfoldable pub fill_at : World → ℕ → ℕ → F → Action (Gateway F) (ExecutionReport F)
    fill_at w now ref mkt = do
      g ← get
      let o = g.store ref
      let price = if is_buy o.side then buy_price g o mkt else sell_price g o mkt
      let notional = f.mul price o.quantity
      let fee = fee_of g notional
      modify (settle o.side o.symbol o.quantity notional fee)
      n ← count_report
      r ← make_report (fill_report w now n o (known_id o) price fee "Order filled immediately")
      apply_report ref r
      deregister o.cl_ord_id
      pure r

    unfoldable pub fill_now : World → ℕ → ℕ → Action (Gateway F) (ExecutionReport F)
    fill_now w now ref g = elim (lookup (g.store ref).symbol g.market_prices) [
      | none ↦ withdraw ref invalid_order_input g
      | some mkt ↦ fill_at w now ref mkt g
    ]

    unfoldable pub rest : World → ℕ → ℕ → Action (Gateway F) (ExecutionReport F)
    rest w now ref = do
      g ← get
      let o = g.store ref
      n ← count_report
      make_report (record {
        report_id = report_id w n;
        cl_ord_id = o.cl_ord_id;
        exchange_order_id = known_id o;
        symbol = o.symbol;
        side = o.side;
        exec_type = new;
        last_quantity = nought;
        last_price = nought;
        cum_quantity = nought;
        leaves_quantity = o.quantity;
        cum_quote_amount = nought;
        average_price = nought;
        fee = nought;
        timestamp_ns = now;
        text = "Limit order resting on book";
      })

    unfoldable pub route : World → ℕ → ℕ → Action (Gateway F) (ExecutionReport F)
    route w now ref g =
        if is_marketable g (g.store ref) then fill_now w now ref g else rest w now ref g

    -- 4. to 7.
    unfoldable pub execute : World → ℕ → Action (Gateway F) (ExecutionReport F)
    execute w ref = do
      register ref
      g ← get
      if is_buy (g.store ref).side then check_margin ref else pure tt
      let now = w.now (suc g.report_counter)
      acknowledge now ref
      route w now ref

    unfoldable pub submit_order :
        World → (Gateway F → Gateway F) → ℕ → Action (Gateway F) (ExecutionReport F)
    submit_order w other ref = do
      g ← get
      raise_when (not g.is_connected) gateway_disconnected
      admissible (g.store ref)
      sleep other
      execute w ref
