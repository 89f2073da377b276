-- ===== src/Heartbeat/Types.antt =====
-- The checks, the configuration, the record and the state of HeartbeatWatchdog in
-- src/quant/execution/heartbeat.py. `W` is the state of the world that the listeners act on.
use quant_stuff.Prelude.{
  ℕ, ◌-◌, ◌==◌, Bool, Option, none, some, String, List, [], if◌then◌else◌, is_blank, nonneg?,
}
use quant_stuff.Float.{Float, lt}
use quant_stuff.Orders.Types.{Result, ok, err, ◌>>=◌, ◌>>◌, raise_if, non_finite_risk_input}
use quant_stuff.Orders.Validate.{Value, as_str}
use quant_stuff.Action.{Action}
use quant_stuff.Risk.Limits.{positive_risk_scalar, nonneg_risk_scalar}

pub data ConnectionStatus : Type 0 where
  connected degraded disconnected reconnecting : ConnectionStatus

pub data TransportProtocol : Type 0 where
  websocket fix rest_poll : TransportProtocol

-- the place of a member in its enum
abbrev status_index : ConnectionStatus → ℕ
status_index connected = 0
status_index degraded = 1
status_index disconnected = 2
status_index reconnecting = 3

-- `a == b`
abbrev pub same_status : ConnectionStatus → ConnectionStatus → Bool
same_status a b = status_index a == status_index b

-- a callable, with the number that tells it from others
pub record Listener (A W : Type 0) : Type 0 where
  pub identity : ℕ
  pub call : A → Action W (Unit {0})

pub record HeartbeatConfig (F : Type 0) : Type 0 where
  pub heartbeat_interval_seconds : F
  pub timeout_seconds : F
  pub max_consecutive_misses : ℕ
  pub latency_warning_threshold_ms : F
  pub latency_critical_threshold_ms : F

-- the arguments of HeartbeatConfig, of any Python type
pub record ConfigArgs (F : Type 0) : Type 0 where
  pub heartbeat_interval_seconds : Value F
  pub timeout_seconds : Value F
  pub max_consecutive_misses : Value F
  pub latency_warning_threshold_ms : Value F
  pub latency_critical_threshold_ms : Value F

pub record HeartbeatRecord (F : Type 0) : Type 0 where
  pub sequence_number : ℕ
  pub timestamp_ns : ℕ
  pub latency_ms : F
  pub status : ConnectionStatus

-- what the listeners are told: a change of the status, a gap, and a disconnection
pub record StatusChange : Type 0 where
  pub gateway_id : String
  pub old_status : ConnectionStatus
  pub new_status : ConnectionStatus
  pub timestamp_ns : ℕ

pub record SequenceGap : Type 0 where
  pub gateway_id : String
  pub expected_sequence : ℕ
  pub received_sequence : ℕ
  pub timestamp_ns : ℕ

pub record Disconnection (F : Type 0) : Type 0 where
  pub gateway_id : String
  pub elapsed_seconds : F
  pub timestamp_ns : ℕ

pub record Watchdog (F W : Type 0) : Type 0 where
  pub gateway_id : String
  pub config : HeartbeatConfig F
  pub protocol : TransportProtocol
  pub status : ConnectionStatus
  pub last_heartbeat_timestamp_ns : ℕ
  pub last_sequence_number : ℕ
  pub expected_sequence_number : ℕ
  pub consecutive_misses : ℕ
  pub sequence_gaps_count : ℕ
  pub recent_latencies : List F
  pub status_listeners : List (Listener StatusChange W)
  pub sequence_gap_listeners : List (Listener SequenceGap W)
  pub disconnect_listeners : List (Listener (Disconnection F) W)

module _ {F : Type 0} where
  -- an `int` that is no `bool` and not negative
  unfoldable pub nonneg_int : Value F → Result ℕ
  nonneg_int (Value.int n) = elim (nonneg? n) [ none ↦ err non_finite_risk_input | some t ↦ ok t ]
  nonneg_int _ = err non_finite_risk_input

  unfoldable pub positive_int : Value F → Result ℕ
  unfolding nonneg_int
  positive_int v = do n ← nonneg_int v; raise_if (n == 0) non_finite_risk_input; ok n

  -- a text that is not blank, as it is
  unfoldable pub gateway_text : Value F → Result String
  unfolding as_str
  gateway_text v = elim (as_str v) [
    | err e ↦ err non_finite_risk_input
    | ok s ↦ if is_blank s then err non_finite_risk_input else ok s
  ]

  module _ ⦃f : Float F⦄ where
    unfoldable pub new_config : ConfigArgs F → Result (HeartbeatConfig F)
    new_config a = do
      interval ← positive_risk_scalar a.heartbeat_interval_seconds
      timeout ← positive_risk_scalar a.timeout_seconds
      misses ← positive_int a.max_consecutive_misses
      warn ← positive_risk_scalar a.latency_warning_threshold_ms
      crit ← positive_risk_scalar a.latency_critical_threshold_ms
      raise_if (lt timeout interval) non_finite_risk_input
      raise_if (lt crit warn) non_finite_risk_input
      ok (record {
        heartbeat_interval_seconds = interval;
        timeout_seconds = timeout;
        max_consecutive_misses = misses;
        latency_warning_threshold_ms = warn;
        latency_critical_threshold_ms = crit;
      })

    -- HeartbeatConfig()
    unfoldable pub default_config : HeartbeatConfig F
    default_config = record {
      heartbeat_interval_seconds = f.lit 1 0;
      timeout_seconds = f.lit 3 0;
      max_consecutive_misses = 3;
      latency_warning_threshold_ms = f.lit 250 0;
      latency_critical_threshold_ms = f.lit 1000 0;
    }

    unfoldable pub new_heartbeat_record :
        Value F → Value F → Value F → ConnectionStatus → Result (HeartbeatRecord F)
    new_heartbeat_record sequence_number timestamp_ns latency_ms status = do
      n ← positive_int sequence_number
      t ← positive_int timestamp_ns
      latency ← nonneg_risk_scalar latency_ms
      ok (record { sequence_number = n; timestamp_ns = t; latency_ms = latency; status = status })

    unfoldable pub new_watchdog :
        {W : Type 0}
        → Value F
        → Option (HeartbeatConfig F)
        → TransportProtocol
        → Value F
        → Value F
        → ConnectionStatus
        → Result (Watchdog F W)
    unfolding default_config
    new_watchdog gateway_id config protocol initial_sequence_number initial_timestamp_ns status = do
      id ← gateway_text gateway_id
      n ← positive_int initial_sequence_number
      t ← nonneg_int initial_timestamp_ns
      ok (record {
        gateway_id = id;
        config = elim config [ none ↦ default_config | some c ↦ c ];
        protocol = protocol;
        status = status;
        last_heartbeat_timestamp_ns = t;
        last_sequence_number = n - 1;
        expected_sequence_number = n;
        consecutive_misses = 0;
        sequence_gaps_count = 0;
        recent_latencies = [];
        status_listeners = [];
        sequence_gap_listeners = [];
        disconnect_listeners = [];
      })
