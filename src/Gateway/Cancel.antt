-- ===== src/Gateway/Cancel.antt =====
-- `cancel_order` of PaperExecutionGateway in src/quant/execution/gateway.py.
pub mod Effects
use quant_stuff.Prelude.{ℕ, suc, Bool, not, Option, none, some, String, strip}
use quant_stuff.Prelude.Dict.{lookup}
use quant_stuff.Float.{Float, nought}
use quant_stuff.Orders.Types.{
  Order, ExecutionReport, cancelled, is_terminal, Result, ok, err, invalid_order_input,
  invalid_state_transition, gateway_disconnected,
}
use quant_stuff.Orders.Validate.{Value}
use quant_stuff.Idempotency.{text_argument}
use quant_stuff.Action.{Action, pure, raise, get, check, raise_when, ◌>>=◌, ◌>>◌}
use quant_stuff.Gateway.Types.{
  Gateway, World, report_id, exchange_id, count_report, deregister, make_report, apply_report,
  sleep,
}

module _ {F : Type 0} ⦃f : Float F⦄ where
  -- the report of a cancellation
  unfoldable pub cancel_report : World → ℕ → Order F → ExecutionReport F
  cancel_report w n o = record {
    report_id = report_id w n;
    cl_ord_id = o.cl_ord_id;
    exchange_order_id = exchange_id o;
    symbol = o.symbol;
    side = o.side;
    exec_type = cancelled;
    last_quantity = nought;
    last_price = nought;
    cum_quantity = o.filled_quantity;
    leaves_quantity = nought;
    cum_quote_amount = o.filled_quote_amount;
    average_price = o.average_price;
    fee = nought;
    timestamp_ns = w.now n;
    text = "Order cancelled by client";
  }

  -- 5. to 7., for the order at a place
  unfoldable pub cancel_at : World → ℕ → Action (Gateway F) (ExecutionReport F)
  cancel_at w ref = do
    g ← get
    let o = g.store ref
    raise_when (is_terminal o) invalid_state_transition
    n ← count_report
    r ← make_report (cancel_report w n o)
    apply_report ref r
    deregister o.cl_ord_id
    pure r

  -- 4. the order of an identifier
  unfoldable pub find : String → Action (Gateway F) ℕ
  find id g = elim (lookup id g.orders) [
    | none ↦ (err invalid_order_input, g)
    | some ref ↦ (ok ref, g)
  ]

  unfoldable pub cancel_order :
      World → (Gateway F → Gateway F) → Value F → Action (Gateway F) (ExecutionReport F)
  cancel_order w other cl_ord_id = do
    g ← get
    raise_when (not g.is_connected) gateway_disconnected
    id ← check (text_argument cl_ord_id)
    sleep other
    ref ← find (strip id)
    cancel_at w ref
