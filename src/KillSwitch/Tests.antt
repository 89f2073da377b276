-- ===== src/KillSwitch/Tests.antt =====
-- The kill switch at concrete values.
use quant_stuff.Prelude.{
  ◌≡◌, sym, inl, refl, ℕ, none, some, String, List, [], ◌∷◌, All, length, strip, is_blank,
  str_eq_iff, arith,
}
use quant_stuff.Prelude.Dict.{lookup, insert, erase, add, member, values}
use quant_stuff.Float.{Fixed, decimal, fixed_float}
use quant_stuff.Orders.Types.{
  ok, err, ok_injective, kill_switch_active, assertion_error, invalid_admin_token,
}
use quant_stuff.Orders.Validate.{
  Value, new_report, non_empty_str, optional_str, as_str, as_side, as_type, as_tif, as_state,
  timestamp, positive_scalar, nonneg_scalar, optional_price,
}
use quant_stuff.Fsm.{apply_execution_report, transition, dispatch, move, can_transition}
use quant_stuff.Idempotency.{
  register_order, is_known, deregister_order, retire, make_room, int_text, text_argument,
}
use quant_stuff.Gateway.Types.{
  Gateway, write, sleep, settle, make_report, apply_report, count_report, deregister, report_id,
  exchange_id,
}
use quant_stuff.Gateway.Submit.{
  admissible, execute, register, check_margin, estimate, quoted, quote, buy_price, acknowledge,
  identify, is_marketable, route, fill_now, fill_at, rest, submit_order,
}
use quant_stuff.Gateway.Cancel.{cancel_order, cancel_at, cancel_report, find}
use quant_stuff.Gateway.Connection
use quant_stuff.Gateway.Connection.{get_open_orders, get_positions, open_among}
use quant_stuff.Gateway.Tests.{world, with_bid}
use quant_stuff.Risk.Limits.{positive_risk_scalar}
use quant_stuff.KillSwitch.Types.{
  KillSwitch, KillSwitchState, armed_standby, panic_triggered, KillSwitchEvent, drawdown_breach,
  cancel_only, EnumArg, enum_argument, filled_text, new_event, all_finite, validate_submission,
  verify_admin_token, reset, new_kill_switch,
}
use quant_stuff.KillSwitch.Sweep.{
  attempt, attempt_all, fetch_all, requests, cancel_all, add_positions, snapshot_of,
  execute_gateway_cancellations,
}
use quant_stuff.KillSwitch.Panic.{
  Clock, PanicArgs, Alarm, alarm, trigger_panic, respond, repeated, protocol, conclude, publish,
  liquidate, source_argument, details_argument, panic_time,
}
use quant_stuff.KillSwitch.Cancelled.{ClosedAll}
use quant_stuff.KillSwitch.Protocol.{trigger_panic-closes, open_orders}
use quant_stuff.KillSwitch.Lockout.{Call, Foreign, run, run-lockout}
use quant_stuff.KillSwitch.Paper.{Shut, paper_venue, paper_venue-Closes, trigger_panic-paper}

abbrev Desk : Type 0
Desk = KillSwitch Fixed (Gateway Fixed)

abbrev place : Gateway Fixed → ℕ
place g = 7

abbrev armed : Desk
armed = record {
  admin_token = "secret";
  state = armed_standby;
  gateway_timeout_seconds = decimal 2 0;
  gateways = ("paper", paper_venue world place) ∷ [];
  scheduler_hooks = [];
  panic_listeners = [];
  last_event = none;
}

abbrev clock : Clock
clock = record { trigger_time = 5; flatten_time = 6 }

abbrev breach : PanicArgs Fixed
breach = record {
  reason = EnumArg.text "DRAWDOWN_BREACH";
  source = Value.str "risk";
  panic_mode = EnumArg.member cancel_only;
  details = Value.str "";
  current_timestamp_ns = Value.null;
}

abbrev breach_alarm : Alarm
breach_alarm = record {
  reason = drawdown_breach;
  source = "risk";
  mode = cancel_only;
  details = "";
  time = 5;
}

abbrev keep_state : KillSwitchState → KillSwitchState
keep_state s = s

abbrev breach_event : KillSwitchEvent Fixed
breach_event = record {
  timestamp_ns = 5;
  trigger_reason = drawdown_breach;
  trigger_source = "risk";
  panic_mode = cancel_only;
  cancelled_orders_count = 1;
  positions_snapshot = [];
  details = "";
}

abbrev stopped : Desk
stopped = record armed { state = panic_triggered; last_event = some breach_event }

-- the gateway after the panic
abbrev emptied : Gateway Fixed
emptied = (trigger_panic clock keep_state breach (armed, with_bid)).1.1

panicked :
    trigger_panic clock keep_state breach (armed, with_bid) ≡ (ok breach_event, (stopped, emptied))
unfolding submit_order admissible sleep execute register check_margin estimate quoted quote
    buy_price acknowledge identify is_marketable route fill_now fill_at rest make_report
    apply_report count_report deregister report_id new_report apply_execution_report transition
    dispatch move can_transition register_order is_known deregister_order retire make_room is_blank
    int_text lookup insert erase member add non_empty_str optional_str as_str as_side as_type as_tif
    as_state timestamp positive_scalar nonneg_scalar optional_price settle write cancel_order
    cancel_at cancel_report find text_argument strip exchange_id trigger_panic alarm enum_argument
    source_argument details_argument panic_time filled_text respond protocol
    execute_gateway_cancellations fetch_all attempt attempt_all requests cancel_all snapshot_of
    add_positions liquidate conclude publish new_event all_finite paper_venue get_open_orders
    get_positions open_among values
panicked = refl

-- The order that rests is listed, and the count of the event is that of the listed orders.
one_open : length (Connection.get_open_orders with_bid) ≡ 1
unfolding submit_order admissible sleep execute register check_margin estimate quoted quote
    buy_price acknowledge identify is_marketable route fill_now fill_at rest make_report
    apply_report count_report deregister report_id new_report apply_execution_report transition
    dispatch move can_transition register_order is_known deregister_order retire make_room is_blank
    int_text lookup insert erase member add non_empty_str optional_str as_str as_side as_type as_tif
    as_state timestamp positive_scalar nonneg_scalar optional_price settle write get_open_orders
    open_among values
one_open = refl

checked : alarm clock breach ≡ ok breach_alarm
unfolding alarm enum_argument source_argument details_argument panic_time filled_text as_str
    is_blank strip
checked = refl

trigger_panic-paper_example :
    All (λ ref. Shut (with_bid.store ref).cl_ord_id emptied) (Connection.get_open_orders with_bid)
unfolding attempt_all
trigger_panic-paper_example =
    trigger_panic-paper world place "paper" clock keep_state armed stopped with_bid emptied breach
      breach_alarm breach_event refl tt refl checked refl panicked (sym one_open)

one_request : 1 ≡ length (open_orders armed with_bid)
unfolding submit_order admissible sleep execute register check_margin estimate quoted quote
    buy_price acknowledge identify is_marketable route fill_now fill_at rest make_report
    apply_report count_report deregister report_id new_report apply_execution_report transition
    dispatch move can_transition register_order is_known deregister_order retire make_room is_blank
    int_text lookup insert erase member add non_empty_str optional_str as_str as_side as_type as_tif
    as_state timestamp positive_scalar nonneg_scalar optional_price settle write get_open_orders
    open_among values fetch_all attempt attempt_all requests paper_venue
one_request = refl

trigger_panic-closes_example :
    (stopped.state ≡ keep_state panic_triggered)
    × (stopped.last_event ≡ some breach_event)
    × ClosedAll Shut (open_orders armed with_bid) emptied
unfolding fetch_all attempt attempt_all requests paper_venue values
trigger_panic-closes_example =
    trigger_panic-closes Shut clock keep_state armed with_bid (paper_venue-Closes world place, tt)
      tt breach breach_alarm breach_event stopped emptied refl checked (inl refl) panicked
      one_request

-- Attempts on a switch in panic: another panic, a wrong token, no token, and a gateway taken away.
abbrev attempts : List (Call Fixed (Gateway Fixed))
attempts =
    Call.panics clock keep_state breach
    ∷ Call.resets (Value.str "Secret")
    ∷ Call.arms Value.null
    ∷ Call.unregisters (Value.str "paper")
    ∷ []

attempts-Foreign : All (Foreign "secret") attempts
unfolding as_str
attempts-Foreign = (tt, (λ p. different (ok_injective p), (λ p. cc, (tt, tt))))
  where
    different : ◌≡◌ {A = String} "Secret" "secret" → ⊥
    different p = ground (arith, str_eq_iff "Secret" "secret")

run-lockout_example :
    (validate_submission (run attempts (stopped, emptied)).0 ≡ err kill_switch_active)
    × ((run attempts (stopped, emptied)).0.last_event ≡ some breach_event)
    × ((run attempts (stopped, emptied)).1 ≡ emptied)
run-lockout_example = run-lockout attempts stopped emptied refl attempts-Foreign

-- A switch that starts in PANIC_TRIGGERED has no event to hand back.
unexplained :
    (trigger_panic clock keep_state breach (record armed { state = panic_triggered }, with_bid)).0
    ≡ err assertion_error
unfolding trigger_panic alarm enum_argument source_argument details_argument panic_time filled_text
    as_str is_blank strip respond repeated
unexplained = refl

-- The token that the constructor was given is refused, since the switch strips what it keeps.
abbrev spaced : Value Fixed
spaced = Value.str " secret "

abbrev guarded : Desk
guarded = record armed { state = panic_triggered; gateways = [] }

constructed :
    new_kill_switch spaced (EnumArg.member panic_triggered) (Value.flt (decimal 2 0)) ≡ ok guarded
unfolding new_kill_switch filled_text as_str is_blank strip enum_argument positive_risk_scalar
constructed = refl

refused : reset spaced guarded ≡ (err invalid_admin_token, guarded)
unfolding reset verify_admin_token as_str
refused = refl
