-- ===== src/Gateway/Types.antt =====
-- The state of PaperExecutionGateway in src/quant/execution/gateway.py. An order is an object that the
-- gateway shares with its caller and with the router, so orders stand in a store and the registries hold
-- their places.
use Prim.Native.String.{◌++◌ as append}
use quant_stuff.Prelude.{
  ℕ, suc, ◌==◌, Bool, true, false, none, some, String, is_empty, if◌then◌else◌,
}
use quant_stuff.Prelude.Dict.{Dict, lookup, insert}
use quant_stuff.Float.{Float, ◌≼◌, lt, nought, absolute}
use quant_stuff.Orders.Types.{
  Order, ExecutionReport, OrderSide, buy, sell, OrderType, limit, ok, err,
}
use quant_stuff.Orders.Validate.{new_report, report_args}
use quant_stuff.Idempotency.{Router, deregister_order, int_text}
use quant_stuff.Fsm.{apply_execution_report}
use quant_stuff.Action.{Action, check}

pub record Gateway (F : Type 0) : Type 0 where
  pub initial_balance : F
  pub cash : F
  pub fee_bps : F
  pub slippage_bps : F
  pub latency_ms : F
  pub is_connected : Bool
  pub positions : Dict F
  pub orders : Dict ℕ
  pub market_prices : Dict F
  pub report_counter : ℕ
  pub router : Router F ℕ
  -- the order objects by their places
  pub store : ℕ → Order F

-- What `time.time_ns()` and `uuid.uuid4().hex[:12]` return for the report with a number.
pub record World : Type 0 where
  pub now : ℕ → ℕ
  pub hex : ℕ → String

abbrev pub is_buy : OrderSide → Bool
is_buy buy = true
is_buy sell = false

abbrev pub is_limit : OrderType → Bool
is_limit limit = true
is_limit _ = false

unfoldable pub report_id : World → ℕ → String
report_id w n = append "rep-paper-" (append (w.hex n) (append "-" (int_text n)))

module _ {F : Type 0} where
  -- writes an order object
  unfoldable pub write : ℕ → Order F → Gateway F → Gateway F
  write ref o g = record g { store = λ q. if q == ref then o else g.store q }

  -- `f"ex-{cl_ord_id}"`, and `order.exchange_order_id or` that
  abbrev pub default_id : Order F → String
  default_id o = append "ex-" o.cl_ord_id

  unfoldable pub exchange_id : Order F → String
  exchange_id o = elim o.exchange_order_id [
    | none ↦ default_id o
    | some id ↦ if is_empty id then default_id o else id
  ]

  -- `self._report_counter += 1`
  unfoldable pub count_report : Action (Gateway F) ℕ
  count_report g = (ok (suc g.report_counter), record g { report_counter = suc g.report_counter })

  -- `self._idempotency_router.deregister_order(id)`
  unfoldable pub deregister : String → Action (Gateway F) (Unit {0})
  deregister id g =
      let (result, router) = deregister_order id g.router in
      (elim result [ ok _ ↦ ok tt | err e ↦ err e ], record g { router = router })

  module _ ⦃f : Float F⦄ where
    -- a price no worse for a side than a limit
    abbrev pub NoWorse : OrderSide → F → F → Type 0
    NoWorse OrderSide.buy price p = price ≼ p
    NoWorse OrderSide.sell price p = p ≼ price

    -- `1.0 + self._slippage_bps * 1e-4`, and with a minus
    abbrev pub slippage : Gateway F → F
    slippage g = f.mul g.slippage_bps (f.lit 1 4)

    abbrev pub fee_of : Gateway F → F → F
    fee_of g notional = f.mul notional (f.mul g.fee_bps (f.lit 1 4))

    -- `if self._latency_ms > 0.0: await asyncio.sleep(...)`: `other` is what other tasks do to the
    -- gateway while this one sleeps
    unfoldable pub sleep : (Gateway F → Gateway F) → Action (Gateway F) (Unit {0})
    sleep other g = (ok tt, if lt nought g.latency_ms then other g else g)

    -- a position that is nought up to 1e-9 is nought
    unfoldable pub tidy : F → F
    tidy x = if lt (absolute x) (f.lit 1 9) then nought else x

    unfoldable pub position : String → Dict F → F
    position sym d = elim (lookup sym d) [ none ↦ nought | some x ↦ x ]

    -- the cash and position of a fill
    unfoldable pub settle : OrderSide → String → F → F → F → Gateway F → Gateway F
    settle OrderSide.buy sym qty notional fee g = record g {
      cash = f.sub g.cash (f.add notional fee);
      positions = insert sym (tidy (f.round (f.add (position sym g.positions) qty) 8)) g.positions;
    }
    settle OrderSide.sell sym qty notional fee g = record g {
      cash = f.add g.cash (f.sub notional fee);
      positions = insert sym (tidy (f.round (f.sub (position sym g.positions) qty) 8)) g.positions;
    }

    -- `ExecutionReport(...)`
    unfoldable pub make_report : ExecutionReport F → Action (Gateway F) (ExecutionReport F)
    make_report r = check (new_report (report_args r))

    -- `self._fsm.apply_execution_report(order, report)`, which writes the order object
    unfoldable pub apply_report : ℕ → ExecutionReport F → Action (Gateway F) (Unit {0})
    apply_report ref r g =
        let (result, o) = apply_execution_report (g.store ref) r in (result, write ref o g)
