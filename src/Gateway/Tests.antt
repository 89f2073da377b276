-- ===== src/Gateway/Tests.antt =====
-- The paper gateway at concrete values.
use quant_stuff.Prelude.{
  ◌≡◌, refl, ◌==◌, true, false, some, String, [], ◌∷◌, if◌then◌else◌, All, is_blank, strip,
}
use quant_stuff.Prelude.Dict.{lookup, insert, erase, member, add, values}
use quant_stuff.Float.{Fixed, Fixed-IsOrdered, decimal, fixed_float, IsNonneg}
use quant_stuff.Orders.Types.{Order, ExecutionReport, OrderSide, new, filled, cancelled, ok}
use quant_stuff.Orders.Validate.{
  Value, new_report, non_empty_str, optional_str, as_str, as_side, as_type, as_tif, as_state,
  timestamp, positive_scalar, nonneg_scalar, optional_price,
}
use quant_stuff.Orders.Tests.{limit_buy}
use quant_stuff.Fsm.{apply_execution_report, transition, dispatch, move, can_transition}
use quant_stuff.Idempotency.{
  register_order, is_known, deregister_order, retire, make_room, int_text, text_argument,
}
use quant_stuff.Gateway.Types.{
  NoWorse, is_limit, Gateway, World, write, sleep, settle, make_report, apply_report, count_report,
  deregister, report_id, exchange_id,
}
use quant_stuff.Gateway.Submit.{
  admissible, execute, register, check_margin, estimate, quoted, quote, buy_price, acknowledge,
  identify, is_marketable, route, fill_now, fill_at, rest, submit_order,
}
use quant_stuff.Gateway.Submit.Cash.{submit_order-cash}
use quant_stuff.Gateway.Submit.Limits.{submit_order-limit}
use quant_stuff.Gateway.Cancel.{cancel_order, cancel_at, cancel_report, find}
use quant_stuff.Gateway.Cancel.Effects.{Cancels, cancel_order-Cancels}
use quant_stuff.Gateway.Matching.{
  meets, set_market_price, match_orders, match_order, fill_resting, match_report, rests_for,
}
use quant_stuff.Gateway.Matching.Loop.{
  Reports, post_all, set_market_price-fills, set_market_price-clear,
}
use quant_stuff.Gateway.Account.{account}
use quant_stuff.Gateway.Account.Runs.{Calls, Calls-post}

abbrev pub world : World
world = record { now = λ n. n; hex = λ n. "0f" }

abbrev alone : Gateway Fixed → Gateway Fixed
alone g = g

-- a bid below the market
abbrev resting_buy : Order Fixed
resting_buy = record limit_buy {
  cl_ord_id = "cl-2";
  price = some (decimal 20 0);
  quantity = decimal 2 0;
}

abbrev desk : Gateway Fixed
desk = record {
  initial_balance = decimal 1000 0;
  cash = decimal 1000 0;
  fee_bps = decimal 2 0;
  slippage_bps = decimal 1 0;
  latency_ms = decimal 0 0;
  is_connected = true;
  positions = [];
  orders = [];
  market_prices = ("AAPL", decimal 25 0) ∷ [];
  report_counter = 0;
  router = record {
    history_capacity = 4;
    ttl_seconds = decimal 60 0;
    active_orders = [];
    history_ring = [];
    history_set = [];
  };
  store = λ q. if q == 1 then resting_buy else limit_buy;
}

abbrev bought_report : ExecutionReport Fixed
bought_report = record {
  report_id = "rep-paper-0f-1";
  cl_ord_id = "cl-1";
  exchange_order_id = "ex-cl-1";
  symbol = "AAPL";
  side = OrderSide.buy;
  exec_type = filled;
  last_quantity = decimal 10 0;
  last_price = decimal 25 250_000;
  cum_quantity = decimal 10 0;
  leaves_quantity = decimal 0 0;
  cum_quote_amount = decimal 250 2_500_000;
  average_price = decimal 25 250_000;
  fee = decimal 0 5_000_500;
  timestamp_ns = 1;
  text = "Order filled immediately";
}

abbrev after_buy : Gateway Fixed
after_buy = (submit_order world alone 0 desk).1

bought : submit_order world alone 0 desk ≡ (ok bought_report, after_buy)
unfolding submit_order admissible sleep execute register check_margin estimate quoted quote
    buy_price acknowledge identify is_marketable route fill_now fill_at rest make_report
    apply_report count_report deregister report_id new_report apply_execution_report transition
    dispatch move can_transition register_order is_known deregister_order retire make_room is_blank
    int_text lookup insert erase member add non_empty_str optional_str as_str as_side as_type as_tif
    as_state timestamp positive_scalar nonneg_scalar optional_price settle write
bought = refl

submit_order-cash_example : IsNonneg after_buy.cash
submit_order-cash_example =
    submit_order-cash Fixed-IsOrdered world alone 0 desk (refl, refl) refl (refl, refl) refl
      bought_report after_buy bought

bought_terms :
    (is_limit (after_buy.store 0).order_type ≡ true)
    × ((after_buy.store 0).price ≡ some (decimal 25 50_000_000))
unfolding submit_order admissible sleep execute register check_margin estimate quoted quote
    buy_price acknowledge identify is_marketable route fill_now fill_at rest make_report
    apply_report count_report deregister report_id new_report apply_execution_report transition
    dispatch move can_transition register_order is_known deregister_order retire make_room is_blank
    int_text lookup insert erase member add non_empty_str optional_str as_str as_side as_type as_tif
    as_state timestamp positive_scalar nonneg_scalar optional_price settle write
bought_terms = (refl, refl)

submit_order-limit_example :
    NoWorse (after_buy.store 0).side (decimal 25 250_000) (decimal 25 50_000_000)
submit_order-limit_example =
    submit_order-limit Fixed-IsOrdered world alone 0 desk bought_report after_buy bought refl
      (decimal 25 50_000_000) (bought_terms.0) (bought_terms.1) refl

abbrev resting_report : ExecutionReport Fixed
resting_report = record {
  report_id = "rep-paper-0f-1";
  cl_ord_id = "cl-2";
  exchange_order_id = "ex-cl-2";
  symbol = "AAPL";
  side = OrderSide.buy;
  exec_type = new;
  last_quantity = decimal 0 0;
  last_price = decimal 0 0;
  cum_quantity = decimal 0 0;
  leaves_quantity = decimal 2 0;
  cum_quote_amount = decimal 0 0;
  average_price = decimal 0 0;
  fee = decimal 0 0;
  timestamp_ns = 1;
  text = "Limit order resting on book";
}

abbrev pub with_bid : Gateway Fixed
with_bid = (submit_order world alone 1 desk).1

bid : submit_order world alone 1 desk ≡ (ok resting_report, with_bid)
unfolding submit_order admissible sleep execute register check_margin estimate quoted quote
    buy_price acknowledge identify is_marketable route fill_now fill_at rest make_report
    apply_report count_report deregister report_id new_report apply_execution_report transition
    dispatch move can_transition register_order is_known deregister_order retire make_room is_blank
    int_text lookup insert erase member add non_empty_str optional_str as_str as_side as_type as_tif
    as_state timestamp positive_scalar nonneg_scalar optional_price settle write
bid = refl

abbrev bid_id : Value Fixed
bid_id = Value.str " cl-2"

abbrev withdrawn_report : ExecutionReport Fixed
withdrawn_report = record resting_report {
  report_id = "rep-paper-0f-2";
  exec_type = cancelled;
  leaves_quantity = decimal 0 0;
  timestamp_ns = 2;
  text = "Order cancelled by client";
}

abbrev without_bid : Gateway Fixed
without_bid = (cancel_order world alone bid_id with_bid).1

withdrawn : cancel_order world alone bid_id with_bid ≡ (ok withdrawn_report, without_bid)
unfolding submit_order admissible sleep execute register check_margin estimate quoted quote
    buy_price acknowledge identify is_marketable route fill_now fill_at rest make_report
    apply_report count_report deregister report_id new_report apply_execution_report transition
    dispatch move can_transition register_order is_known deregister_order retire make_room is_blank
    int_text lookup insert erase member add non_empty_str optional_str as_str as_side as_type as_tif
    as_state timestamp positive_scalar nonneg_scalar optional_price settle write cancel_order
    cancel_at cancel_report find text_argument strip exchange_id
withdrawn = refl

cancel_order-Cancels_example :
    (id : String) × (text_argument bid_id ≡ ok id)
    × Cancels world (strip id) (sleep alone with_bid).1 withdrawn_report without_bid
cancel_order-Cancels_example =
    cancel_order-Cancels world alone bid_id with_bid withdrawn_report without_bid withdrawn

abbrev matched_report : ExecutionReport Fixed
matched_report = record resting_report {
  report_id = "rep-paper-0f-2";
  exec_type = filled;
  last_quantity = decimal 2 0;
  last_price = decimal 19 0;
  cum_quantity = decimal 2 0;
  leaves_quantity = decimal 0 0;
  cum_quote_amount = decimal 38 0;
  average_price = decimal 19 0;
  fee = decimal 0 760_000;
  timestamp_ns = 2;
  text = "Resting limit order matched";
}

abbrev ticker : Value Fixed
ticker = Value.str "AAPL"

abbrev lower : Value Fixed
lower = Value.flt (decimal 19 0)

abbrev after_match : Gateway Fixed
after_match = (set_market_price world ticker lower with_bid).1

matched : set_market_price world ticker lower with_bid ≡ (ok (matched_report ∷ []), after_match)
unfolding submit_order admissible sleep execute register check_margin estimate quoted quote
    buy_price acknowledge identify is_marketable route fill_now fill_at rest make_report
    apply_report count_report deregister report_id new_report apply_execution_report transition
    dispatch move can_transition register_order is_known deregister_order retire make_room is_blank
    int_text lookup insert erase member add non_empty_str optional_str as_str as_side as_type as_tif
    as_state timestamp positive_scalar nonneg_scalar optional_price settle write set_market_price
    match_orders match_order fill_resting match_report rests_for text_argument strip exchange_id
    values
matched = refl

ticker_text : text_argument ticker ≡ ok "AAPL"
unfolding text_argument as_str is_blank
ticker_text = refl

lower_price : positive_scalar lower ≡ ok (decimal 19 0)
unfolding positive_scalar
lower_price = refl

set_market_price-fills_example :
    All (Reports (strip "AAPL") (decimal 19 0) after_match) (matched_report ∷ [])
set_market_price-fills_example =
    set_market_price-fills world ticker lower "AAPL" (decimal 19 0) with_bid ticker_text lower_price
      (matched_report ∷ []) after_match matched

-- a price that does not meet the bid
abbrev between : Value Fixed
between = Value.flt (decimal 22 0)

abbrev after_tick : Gateway Fixed
after_tick = (set_market_price world ticker between with_bid).1

unmatched : set_market_price world ticker between with_bid ≡ (ok [], after_tick)
unfolding submit_order admissible sleep execute register check_margin estimate quoted quote
    buy_price acknowledge identify is_marketable route fill_now fill_at rest make_report
    apply_report count_report deregister report_id new_report apply_execution_report transition
    dispatch move can_transition register_order is_known deregister_order retire make_room is_blank
    int_text lookup insert erase member add non_empty_str optional_str as_str as_side as_type as_tif
    as_state timestamp positive_scalar nonneg_scalar optional_price settle write set_market_price
    match_orders match_order fill_resting match_report rests_for text_argument strip exchange_id
    values
unmatched = refl

between_price : positive_scalar between ≡ ok (decimal 22 0)
unfolding positive_scalar
between_price = refl

bid_rests :
    (lookup "cl-2" after_tick.orders ≡ some 1)
    × (rests_for (strip "AAPL") (after_tick.store 1) ≡ true)
    × ((after_tick.store 1).price ≡ some (decimal 20 0))
unfolding submit_order admissible sleep execute register check_margin estimate quoted quote
    buy_price acknowledge identify is_marketable route fill_now fill_at rest make_report
    apply_report count_report deregister report_id new_report apply_execution_report transition
    dispatch move can_transition register_order is_known deregister_order retire make_room is_blank
    int_text lookup insert erase member add non_empty_str optional_str as_str as_side as_type as_tif
    as_state timestamp positive_scalar nonneg_scalar optional_price settle write set_market_price
    match_orders match_order fill_resting match_report rests_for text_argument strip exchange_id
    values
bid_rests = (refl, refl, refl)

set_market_price-clear_example :
    meets (after_tick.store 1).side (decimal 20 0) (decimal 22 0) ≡ false
set_market_price-clear_example =
    set_market_price-clear world ticker between "AAPL" (decimal 22 0) with_bid ticker_text
      between_price [] after_tick unmatched "cl-2" 1 (bid_rests.0) (decimal 20 0) (bid_rests.1)
      (bid_rests.2)

-- a bid that rests and is matched
bid_and_match : Calls world desk (resting_report ∷ matched_report ∷ []) after_match
unfolding sleep
bid_and_match =
    Calls.submitted alone 1 Calls.done bid (Calls.priced ticker lower matched Calls.done)

Calls-post_example :
    account after_match ≡ post_all (resting_report ∷ matched_report ∷ []) (account desk)
Calls-post_example =
    Calls-post world desk after_match (resting_report ∷ matched_report ∷ []) bid_and_match
