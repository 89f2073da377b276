-- ===== src/KillSwitch/Types.antt =====
-- The enums, the event, the state and the administration of EmergencyKillSwitch in
-- src/quant/execution/kill_switch.py. `W` is the state of the world outside: gateways, hooks, listeners.
use quant_stuff.Prelude.{
  ℕ, ◌==◌, Bool, true, false, not, ◌&&◌, Option, none, some, String, List, [], ◌∷◌, if◌then◌else◌,
  str_eq, is_blank, strip, is_empty,
}
use quant_stuff.Prelude.Dict.{Dict}
use quant_stuff.Float.{Float}
use quant_stuff.Orders.Types.{
  Order, Result, ok, err, ◌>>=◌, ◌>>◌, raise_if, type_error, value_error, non_finite_risk_input,
  invalid_admin_token, kill_switch_active,
}
use quant_stuff.Orders.Validate.{Value, as_str}
use quant_stuff.Action.{Action}
use quant_stuff.Risk.Limits.{positive_risk_scalar}

pub data KillSwitchState : Type 0 where
  armed_standby panic_triggered disarmed : KillSwitchState

pub data PanicTriggerReason : Type 0 where
  manual_operator drawdown_breach gateway_disconnect fat_finger_breach rogue_fills :
      PanicTriggerReason

pub data PanicMode : Type 0 where
  cancel_only cancel_and_flatten : PanicMode

-- an argument that may be a member of an enum, a text, or something else
pub data EnumArg (E : Type 0) : Type 0 where
  member : E → EnumArg E
  text : String → EnumArg E
  unrelated : EnumArg E

-- `E(text)`, by the values of the members
unfoldable pub named : {E : Type 0} → List (String × E) → String → Result E
named [] s = err value_error
named ((name, e) ∷ es) s = if str_eq s name then ok e else named es s

unfoldable pub enum_argument : {E : Type 0} → List (String × E) → EnumArg E → Result E
unfolding named
enum_argument names (member e) = ok e
enum_argument names (text s) = named names s
enum_argument names unrelated = err type_error

abbrev pub state_names : List (String × KillSwitchState)
state_names =
    ("ARMED_STANDBY", armed_standby)
    ∷ ("PANIC_TRIGGERED", panic_triggered)
    ∷ ("DISARMED", disarmed)
    ∷ []

abbrev pub reason_names : List (String × PanicTriggerReason)
reason_names =
    ("MANUAL_OPERATOR", manual_operator)
    ∷ ("DRAWDOWN_BREACH", drawdown_breach)
    ∷ ("GATEWAY_DISCONNECT", gateway_disconnect)
    ∷ ("FAT_FINGER_BREACH", fat_finger_breach)
    ∷ ("ROGUE_FILLS", rogue_fills)
    ∷ []

abbrev pub mode_names : List (String × PanicMode)
mode_names = ("CANCEL_ONLY", cancel_only) ∷ ("CANCEL_AND_FLATTEN", cancel_and_flatten) ∷ []

pub record KillSwitchEvent (F : Type 0) : Type 0 where
  pub timestamp_ns : ℕ
  pub trigger_reason : PanicTriggerReason
  pub trigger_source : String
  pub panic_mode : PanicMode
  pub cancelled_orders_count : ℕ
  pub positions_snapshot : Dict F
  pub details : String

-- The ExecutionGateway protocol, as far as the switch calls it. A call that outlasts the timeout of
-- the switch is one that raises. Of an open order the switch reads the identifier.
pub record Venue (F W : Type 0) : Type 0 where
  pub get_open_orders : Action W (List String)
  pub get_positions : Action W (Dict F)
  pub cancel_order : String → Action W (Unit {0})
  pub submit_order : Order F → Action W (Unit {0})

pub record KillSwitch (F W : Type 0) : Type 0 where
  pub admin_token : String
  pub state : KillSwitchState
  pub gateway_timeout_seconds : F
  pub gateways : Dict (Venue F W)
  pub scheduler_hooks : List (Action W (Unit {0}))
  pub panic_listeners : List (KillSwitchEvent F → Action W (Unit {0}))
  pub last_event : Option (KillSwitchEvent F)

-- a text that is not blank, or an error
unfoldable pub filled_text : {F : Type 0} → Value F → Option String
filled_text v = elim (as_str v) [ err e ↦ none | ok s ↦ if is_blank s then none else some s ]

module _ {F : Type 0} ⦃f : Float F⦄ where
  unfoldable pub all_finite : Dict F → Bool
  all_finite [] = true
  all_finite ((_, qty) ∷ d) = f.is_finite qty && all_finite d

  -- `KillSwitchEvent(...)`, with its `__post_init__`
  unfoldable pub new_event : KillSwitchEvent F → Result (KillSwitchEvent F)
  new_event e = do
    raise_if (e.timestamp_ns == 0) non_finite_risk_input
    raise_if (is_blank e.trigger_source) value_error
    raise_if (not (all_finite e.positions_snapshot)) non_finite_risk_input
    ok e

  module _ {W : Type 0} where
    unfoldable pub new_kill_switch :
        Value F → EnumArg KillSwitchState → Value F → Result (KillSwitch F W)
    new_kill_switch admin_token initial_state gateway_timeout_seconds = do
      token ← elim (filled_text admin_token) [ none ↦ err non_finite_risk_input | some s ↦ ok s ]
      state ← enum_argument state_names initial_state
      timeout ← positive_risk_scalar gateway_timeout_seconds
      ok (record {
        admin_token = strip token;
        state = state;
        gateway_timeout_seconds = timeout;
        gateways = [];
        scheduler_hooks = [];
        panic_listeners = [];
        last_event = none;
      })

abbrev pub is_triggered : KillSwitchState → Bool
is_triggered panic_triggered = true
is_triggered _ = false

module _ {F W : Type 0} where
  -- `_verify_admin_token`
  unfoldable pub verify_admin_token : KillSwitch F W → Value F → Bool
  verify_admin_token k token = elim (as_str token) [
    | err e ↦ false
    | ok s ↦ not (is_empty s) && str_eq s k.admin_token
  ]

  -- `reset`, `arm` and `disarm`: a new state for who has the token
  unfoldable pub set_state : KillSwitchState → Value F → Action (KillSwitch F W) (Unit {0})
  set_state state token k =
      if verify_admin_token k token
      then (ok tt, record k { state = state })
      else (err invalid_admin_token, k)

  unfoldable pub reset : Value F → Action (KillSwitch F W) (Unit {0})
  unfolding set_state
  reset = set_state armed_standby

  unfoldable pub disarm : Value F → Action (KillSwitch F W) (Unit {0})
  unfolding set_state
  disarm = set_state disarmed

  unfoldable pub arm : Value F → Action (KillSwitch F W) (Unit {0})
  unfolding set_state
  arm = set_state armed_standby

  unfoldable pub validate_submission : KillSwitch F W → Result (Unit {0})
  validate_submission k = raise_if (is_triggered k.state) kill_switch_active
