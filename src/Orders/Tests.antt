-- ===== src/Orders/Tests.antt =====
-- The order layer at concrete values.
use quant_stuff.Prelude.{◌≡◌, refl, true, none, some, pos, negsuc}
use quant_stuff.Float.{Fixed, Fixed-IsOrdered, decimal, fixed_float}
use quant_stuff.Orders.Types.{
  Order, ExecutionReport, OrderSide, OrderType, TimeInForce, pending_new, filled, ok, err,
  invalid_order_input,
}
use quant_stuff.Orders.Validate.{
  Value, OrderArgs, new_order, new_report, order_args, report_args, non_empty_str, optional_str,
  as_str, as_side, as_type, as_tif, as_state, timestamp, positive_scalar, nonneg_scalar,
  optional_price,
}
use quant_stuff.Orders.Validate.Bounds.{
  IsValid, ReportIsValid, new_order-IsValid, new_report-IsValid,
}
use quant_stuff.Orders.Validate.Accepts.{new_order-order_args, new_report-report_args}

-- a limit order for ten units at 25.5
abbrev pub limit_buy : Order Fixed
limit_buy = record {
  cl_ord_id = "cl-1";
  symbol = "AAPL";
  side = OrderSide.buy;
  order_type = OrderType.limit;
  quantity = decimal 10 0;
  price = some (decimal 25 50_000_000);
  stop_price = none;
  time_in_force = TimeInForce.gtc;
  state = pending_new;
  exchange_order_id = none;
  filled_quantity = decimal 0 0;
  filled_quote_amount = decimal 0 0;
  average_price = decimal 0 0;
  fees_paid = decimal 0 0;
  created_at_ns = 0;
  updated_at_ns = 0;
}

-- its fill
abbrev pub full_fill : ExecutionReport Fixed
full_fill = record {
  report_id = "rep-1";
  cl_ord_id = "cl-1";
  exchange_order_id = "ex-1";
  symbol = "AAPL";
  side = OrderSide.buy;
  exec_type = filled;
  last_quantity = decimal 10 0;
  last_price = decimal 25 0;
  cum_quantity = decimal 10 0;
  leaves_quantity = decimal 0 0;
  cum_quote_amount = decimal 250 0;
  average_price = decimal 25 0;
  fee = decimal 0 5_000_000;
  timestamp_ns = 7;
  text = "";
}

limit_buy-IsValid : IsValid limit_buy
limit_buy-IsValid = record {
  id = refl;
  symbol = refl;
  quantity = (refl, refl);
  price = (refl, refl);
  stop_price = tt;
  filled_quantity = (refl, refl);
  filled_quote_amount = (refl, refl);
  average_price = (refl, refl);
  fees_paid = (refl, refl);
}

full_fill-IsValid : ReportIsValid full_fill
full_fill-IsValid = record {
  report_id = refl;
  id = refl;
  symbol = refl;
  last_quantity = (refl, refl);
  last_price = (refl, refl);
  cum_quantity = (refl, refl);
  leaves_quantity = (refl, refl);
  cum_quote_amount = (refl, refl);
  average_price = (refl, refl);
  fee = (refl, refl);
}

new_order-order_args_example : new_order (order_args limit_buy) ≡ ok limit_buy
new_order-order_args_example = new_order-order_args limit_buy limit_buy-IsValid

new_report-report_args_example : new_report (report_args full_fill) ≡ ok full_fill
new_report-report_args_example = new_report-report_args full_fill full_fill-IsValid

-- whole numbers are taken for the quantity and the price
abbrev whole_numbers : OrderArgs Fixed
whole_numbers = record (order_args limit_buy) {
  quantity = Value.int (pos 10);
  price = Value.int (pos 30);
}

new_order-IsValid_example : IsValid (record limit_buy { price = some (decimal 30 0) })
unfolding new_order non_empty_str optional_str as_str as_side as_type as_tif as_state timestamp
    positive_scalar nonneg_scalar optional_price
new_order-IsValid_example =
    new_order-IsValid Fixed-IsOrdered whole_numbers
      (record limit_buy { price = some (decimal 30 0) }) refl

new_report-IsValid_example : ReportIsValid full_fill
new_report-IsValid_example =
    new_report-IsValid Fixed-IsOrdered (report_args full_fill) full_fill
      (new_report-report_args full_fill full_fill-IsValid)

-- True is no quantity, and -1 is none.
refused :
    (new_order (record (order_args limit_buy) { quantity = Value.bool true })
      ≡ err invalid_order_input)
    × (new_order (record (order_args limit_buy) { quantity = Value.int (negsuc 0) })
        ≡ err invalid_order_input)
unfolding new_order non_empty_str optional_str as_str as_side as_type as_tif as_state timestamp
    positive_scalar nonneg_scalar optional_price
refused = (refl, refl)
