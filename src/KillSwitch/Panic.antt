-- ===== src/KillSwitch/Panic.antt =====
-- `trigger_panic` of EmergencyKillSwitch in src/quant/execution/kill_switch.py. `during` is what other tasks
-- make of the state of the switch while the panic awaits, since `reset`, `arm` and `disarm` take no lock.
use quant_stuff.Prelude.{ℕ, Option, none, some, String, map, strip, nonneg?, ◌==◌, if◌then◌else◌}
use quant_stuff.Prelude.Dict.{Dict}
use quant_stuff.Float.{Float}
use quant_stuff.Orders.Types.{
  Result, ◌>>=◌, ok, err, type_error, value_error, non_finite_risk_input, assertion_error,
  kill_switch_disarmed,
}
use quant_stuff.Orders.Validate.{Value, as_str}
use quant_stuff.Action.{Action, check, ◌>>=◌ as ◌and_then◌}
use quant_stuff.KillSwitch.Types.{
  KillSwitch, KillSwitchState, armed_standby, panic_triggered, disarmed, KillSwitchEvent,
  PanicTriggerReason, PanicMode, cancel_only, cancel_and_flatten, EnumArg, enum_argument,
  reason_names, mode_names, filled_text, new_event,
}
use quant_stuff.KillSwitch.Sweep.{attempt_all, execute_gateway_cancellations, flatten_positions}

-- what `time.time_ns()` returns in `trigger_panic` and in `_flatten_positions`
pub record Clock : Type 0 where
  pub trigger_time : ℕ
  pub flatten_time : ℕ

pub record PanicArgs (F : Type 0) : Type 0 where
  pub reason : EnumArg PanicTriggerReason
  pub source : Value F
  pub panic_mode : EnumArg PanicMode
  pub details : Value F
  pub current_timestamp_ns : Value F

-- the arguments once they are checked
pub record Alarm : Type 0 where
  pub reason : PanicTriggerReason
  pub source : String
  pub mode : PanicMode
  pub details : String
  pub time : ℕ

module _ {F : Type 0} where
  unfoldable pub source_argument : Value F → Result String
  source_argument v = elim (filled_text v) [ none ↦ err value_error | some s ↦ ok (strip s) ]

  unfoldable pub details_argument : Value F → Result String
  details_argument v = elim (as_str v) [ err e ↦ err type_error | ok s ↦ ok s ]

  unfoldable pub panic_time : ℕ → Value F → Result ℕ
  panic_time now Value.null = ok now
  panic_time now (Value.int n) = elim (nonneg? n) [
    | none ↦ err non_finite_risk_input
    | some t ↦ if t == 0 then err non_finite_risk_input else ok t
  ]
  panic_time now _ = err non_finite_risk_input

  abbrev pub event_of : Alarm → ℕ → Dict F → KillSwitchEvent F
  event_of a count snapshot = record {
    timestamp_ns = a.time;
    trigger_reason = a.reason;
    trigger_source = a.source;
    panic_mode = a.mode;
    cancelled_orders_count = count;
    positions_snapshot = snapshot;
    details = strip a.details;
  }

  unfoldable pub alarm : Clock → PanicArgs F → Result Alarm
  alarm clock args = do
    reason ← enum_argument reason_names args.reason
    source ← source_argument args.source
    mode ← enum_argument mode_names args.panic_mode
    details ← details_argument args.details
    time ← panic_time clock.trigger_time args.current_timestamp_ns
    ok (record { reason = reason; source = source; mode = mode; details = details; time = time })

  module _ {W : Type 0} ⦃f : Float F⦄ where
    -- the positions are sold or bought back, if the mode says so
    unfoldable pub liquidate : PanicMode → ℕ → KillSwitch F W → Action W (Unit {0})
    liquidate cancel_only now k w = (ok tt, w)
    liquidate cancel_and_flatten now k w = flatten_positions now k.gateways w

    -- the event is kept and told to the listeners
    unfoldable pub publish :
        Result (KillSwitchEvent F) → Action (KillSwitch F W × W) (KillSwitchEvent F)
    publish (err e) (k, w) = (err e, (k, w))
    publish (ok event) (k, w) = (
      ok event,
      (
        record k { last_event = some event },
        attempt_all (map (λ listener. listener event) k.panic_listeners) w,
      ),
    )

    unfoldable pub conclude :
        Result (Unit {0})
        → Result (KillSwitchEvent F)
        → Action (KillSwitch F W × W) (KillSwitchEvent F)
    conclude (err e) event s = (err e, s)
    conclude (ok _) event s = publish event s

    -- hooks, cancellations, liquidation and the event of an armed switch
    unfoldable pub protocol :
        Clock
        → (KillSwitchState → KillSwitchState)
        → Alarm
        → Action (KillSwitch F W × W) (KillSwitchEvent F)
    protocol clock during a (k, w) =
        let w1 = attempt_all k.scheduler_hooks w in
        let ((count, snapshot), w2) = execute_gateway_cancellations k.gateways w1 in
        let (sold, w3) = liquidate a.mode clock.flatten_time k w2 in
        conclude sold (new_event (event_of a count snapshot))
          (record k { state = during panic_triggered }, w3)

    -- the answer of a switch that is in panic already
    unfoldable pub repeated :
        Option (KillSwitchEvent F) → Action (KillSwitch F W × W) (KillSwitchEvent F)
    repeated none s = (err assertion_error, s)
    repeated (some event) s = (ok event, s)

    unfoldable pub respond :
        Clock
        → (KillSwitchState → KillSwitchState)
        → Alarm
        → KillSwitchState
        → Action (KillSwitch F W × W) (KillSwitchEvent F)
    respond clock during a disarmed s = (err kill_switch_disarmed, s)
    respond clock during a panic_triggered s = repeated s.0.last_event s
    respond clock during a armed_standby s = protocol clock during a s

    unfoldable pub trigger_panic :
        Clock
        → (KillSwitchState → KillSwitchState)
        → PanicArgs F
        → Action (KillSwitch F W × W) (KillSwitchEvent F)
    trigger_panic clock during args =
        check (alarm clock args) and_then λ a s. respond clock during a s.0.state s
