-- ===== src/Parent/Tests.antt =====
-- Parent orders of src/quant/execution/parent_order.py at concrete values.
use quant_stuff.Prelude.{◌≡◌, ◌≢◌, refl, true, is_blank, strip, List, [], ◌∷◌, pos}
use quant_stuff.Float.{Fixed, Fixed-IsOrdered, decimal, fixed_float}
use quant_stuff.Orders.Types.{OrderSide, ok, err, algorithm_timeout, zero_division_error}
use quant_stuff.Orders.Validate.{Value, as_str}
use quant_stuff.Parent.Fills.{
  FillArgs, ParentArgs, ParentOrder, sor_text, sor_side, sor_time, sor_scalar, finite_sor,
  positive_sor_scalar, nonneg_sor_scalar, decision_or, new_parent, new_child_fill, with_fill,
  record_child_fill, parent_leaves, is_completed, max_duration_ns, within_horizon, check_timeout,
}
use quant_stuff.Parent.Books.{IsBooked}
use quant_stuff.Parent.Session.{recorded, recorded-Books, recorded-no_timeout}
use quant_stuff.Parent.Shortfall.{resolved_terminal, bps_scale, compute_implementation_shortfall}

abbrev buy_args : ParentArgs Fixed
buy_args = record {
  parent_id = Value.str "P1";
  symbol = Value.str "AAPL";
  side = Value.side_member OrderSide.buy;
  total_quantity = Value.int (pos 10);
  arrival_price = Value.flt (decimal 20 0);
  decision_price = Value.null;
  max_duration_seconds = Value.int (pos 300);
  start_time_ns = Value.int (pos 5);
}

abbrev buy_parent : ParentOrder Fixed
buy_parent = record {
  parent_id = "P1";
  symbol = "AAPL";
  side = OrderSide.buy;
  total_quantity = decimal 10 0;
  arrival_price = decimal 20 0;
  decision_price = decimal 20 0;
  max_duration_seconds = decimal 300 0;
  start_time_ns = 5;
  child_fills = [];
  filled_quantity = decimal 0 0;
  cum_notional = decimal 0 0;
  total_fees = decimal 0 0;
  cum_spread_slippage = decimal 0 0;
}

constructed : new_parent buy_args ≡ ok buy_parent
unfolding new_parent sor_text as_str sor_side sor_time sor_scalar finite_sor positive_sor_scalar
    decision_or is_blank strip
constructed = refl

abbrev fill_of : Fixed → Fixed → FillArgs Fixed
fill_of quantity price = record {
  child_id = Value.str "C";
  quantity = Value.flt quantity;
  price = Value.flt price;
  fee = Value.flt (decimal 1 0);
  timestamp_ns = Value.int (pos 7);
  spread_slippage = Value.flt (decimal 0 0);
}

-- four, then eleven, which are refused, then six
abbrev three_calls : List (FillArgs Fixed)
three_calls =
    fill_of (decimal 4 0) (decimal 21 0)
    ∷ fill_of (decimal 11 0) (decimal 21 0)
    ∷ fill_of (decimal 6 0) (decimal 22 0)
    ∷ []

filled_up : (recorded three_calls buy_parent).filled_quantity ≡ decimal 10 0
unfolding recorded record_child_fill new_child_fill with_fill sor_text is_blank strip as_str
    sor_time sor_scalar finite_sor positive_sor_scalar nonneg_sor_scalar
filled_up = refl

completed : is_completed (recorded three_calls buy_parent) ≡ true
unfolding recorded record_child_fill new_child_fill with_fill sor_text is_blank strip as_str
    sor_time sor_scalar finite_sor positive_sor_scalar nonneg_sor_scalar is_completed parent_leaves
completed = refl

-- An order with leaves runs out of time a nanosecond after its horizon.
late : check_timeout (Value.int (pos 300_000_000_006)) buy_parent ≡ err algorithm_timeout
unfolding check_timeout within_horizon max_duration_ns sor_time is_completed parent_leaves
late = refl

in_time : check_timeout (Value.int (pos 300_000_000_005)) buy_parent ≡ ok tt
unfolding check_timeout within_horizon max_duration_ns sor_time is_completed parent_leaves
in_time = refl

recorded-Books_example : IsBooked (recorded three_calls buy_parent)
recorded-Books_example = recorded-Books Fixed-IsOrdered buy_args buy_parent three_calls constructed

recorded-no_timeout_example :
    (is_completed (recorded three_calls (recorded three_calls buy_parent)) ≡ true)
    × (check_timeout
          (Value.int (pos 900_000_000_000))
          (recorded three_calls (recorded three_calls buy_parent))
        ≢ err algorithm_timeout)
recorded-no_timeout_example =
    recorded-no_timeout Fixed-IsOrdered buy_args buy_parent three_calls three_calls
      (Value.int (pos 900_000_000_000)) constructed completed

-- A benchmark notional that rounds to nought is divided by.
tiny :
    compute_implementation_shortfall Value.null
      (record buy_parent { total_quantity = decimal 0 1; arrival_price = decimal 0 1 })
    ≡ err zero_division_error
unfolding compute_implementation_shortfall resolved_terminal bps_scale
tiny = refl
