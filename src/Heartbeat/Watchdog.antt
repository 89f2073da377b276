-- ===== src/Heartbeat/Watchdog.antt =====
-- The methods of HeartbeatWatchdog in src/quant/execution/heartbeat.py.
use quant_stuff.Prelude.{
  ℕ, suc, ◌+◌, ◌-◌, ◌==◌, Bool, ◌&&◌, ◌||◌, none, some, List, [], ◌∷◌, ◌++◌, leb, ltb, pos,
  if◌then◌else◌, length,
}
use quant_stuff.Float.{Float, nought, fmax}
use quant_stuff.Orders.Types.{Result, ok, err, overflow_error}
use quant_stuff.Orders.Validate.{Value}
use quant_stuff.Action.{Action, check, get, modify, pure, ◌>>=◌, ◌>>◌}
use quant_stuff.Risk.Limits.{nonneg_risk_scalar}
use quant_stuff.Heartbeat.Listeners.{notify, outside}
use quant_stuff.Heartbeat.Types.{
  ConnectionStatus, connected, degraded, disconnected, reconnecting, same_status, HeartbeatConfig,
  HeartbeatRecord, Watchdog, nonneg_int, positive_int, new_heartbeat_record,
}

-- the watchdog, and the world
abbrev pub Session : Type 0 → Type 0 → Type 0
Session F W = Watchdog F W × W

without_first : {A : Type 0} → List A → List A
without_first [] = []
without_first (x ∷ xs) = xs

-- `deque(maxlen=100)`
unfoldable pub append_latency : {F : Type 0} → F → List F → List F
unfolding without_first
append_latency x xs =
    let ys = xs ++ (x ∷ []) in if ltb 100 (length ys) then without_first ys else ys

module _ {F : Type 0} ⦃f : Float F⦄ where
  unfoldable pub last_latency : List F → F
  last_latency [] = nought
  last_latency (x ∷ []) = x
  last_latency (x ∷ y ∷ xs) = last_latency (y ∷ xs)

  unfoldable pub greatest : F → List F → F
  greatest x [] = x
  greatest x (y ∷ ys) = greatest (fmax x y) ys

  unfoldable pub max_latency : List F → F
  unfolding greatest
  max_latency [] = nought
  max_latency (x ∷ xs) = greatest x xs

  -- `sum` of floats is an argument
  unfoldable pub average_latency : (List F → F) → List F → Result F
  average_latency sum [] = ok nought
  average_latency sum (x ∷ xs) = elim (f.of_int (pos (length (x ∷ xs)))) [
    | none ↦ err overflow_error
    | some n ↦ ok (f.div (sum (x ∷ xs)) n)
  ]

  unfoldable pub seconds : ℕ → Result F
  seconds ns = elim (f.of_int (pos ns)) [
    | none ↦ err overflow_error
    | some x ↦ ok (f.div x (f.lit 1_000_000_000 0))
  ]

  -- `int(elapsed_seconds // interval_s)`
  unfoldable pub misses_in : F → HeartbeatConfig F → Result ℕ
  misses_in elapsed c = elim (f.truncate (f.floor_div elapsed c.heartbeat_interval_seconds)) [
    | none ↦ err overflow_error
    | some n ↦ ok n
  ]

  unfoldable pub timed_out : F → ℕ → HeartbeatConfig F → Bool
  timed_out elapsed misses c = f.le c.timeout_seconds elapsed || leb c.max_consecutive_misses misses

module _ {F W : Type 0} where
  unfoldable pub is_connected : Watchdog F W → Bool
  is_connected k = same_status k.status connected

  unfoldable pub is_degraded : Watchdog F W → Bool
  is_degraded k = same_status k.status degraded

  unfoldable pub is_disconnected : Watchdog F W → Bool
  is_disconnected k = same_status k.status disconnected

  unfoldable pub is_reconnecting : Watchdog F W → Bool
  is_reconnecting k = same_status k.status reconnecting

  unfoldable pub carries_traffic : Watchdog F W → Bool
  carries_traffic k = same_status k.status connected || same_status k.status degraded

  -- moves to a status, and tells the listeners of the move
  unfoldable pub move_to : ConnectionStatus → ℕ → Action (Session F W) (Unit {0})
  unfolding notify
  move_to status now (k, w) =
      outside
        (notify k.status_listeners (record {
          gateway_id = k.gateway_id;
          old_status = k.status;
          new_status = status;
          timestamp_ns = now;
        }))
        (record k { status = status }, w)

  unfoldable pub mark_reconnecting : Value F → Action (Session F W) (Unit {0})
  unfolding move_to
  mark_reconnecting timestamp_ns = do
    now ← check (nonneg_int timestamp_ns)
    s ← get
    if same_status s.0.status reconnecting then pure tt else move_to reconnecting now

  -- the counters of a new session; the status is set last
  unfoldable pub restarted : ℕ → ℕ → Watchdog F W → Watchdog F W
  restarted n now k = record k {
    last_sequence_number = n - 1;
    expected_sequence_number = n;
    last_heartbeat_timestamp_ns = now;
    consecutive_misses = 0;
    sequence_gaps_count = 0;
    recent_latencies = [];
  }

  unfoldable pub reset_session : Value F → Value F → Action (Session F W) (Unit {0})
  unfolding move_to restarted
  reset_session initial_sequence_number current_timestamp_ns = do
    n ← check (positive_int initial_sequence_number)
    now ← check (nonneg_int current_timestamp_ns)
    modify λ s. (restarted n now s.0, s.1)
    s ← get
    if same_status s.0.status connected then pure tt else move_to connected now

  module _ ⦃f : Float F⦄ where
    -- a packet of checked numbers is taken note of
    unfoldable pub received : F → ℕ → Watchdog F W → Watchdog F W
    received latency now k = record k {
      last_heartbeat_timestamp_ns = now;
      consecutive_misses = 0;
      recent_latencies = append_latency latency k.recent_latencies;
    }

    -- a number that is not the expected one is counted, and the listeners are told
    unfoldable pub detect_gap : ℕ → ℕ → Action (Session F W) (Unit {0})
    unfolding notify
    detect_gap n now (k, w) =
        if n == k.expected_sequence_number
        then (ok tt, (k, w))
        else outside
            (notify k.sequence_gap_listeners (record {
              gateway_id = k.gateway_id;
              expected_sequence = k.expected_sequence_number;
              received_sequence = n;
              timestamp_ns = now;
            }))
            (record k { sequence_gaps_count = suc k.sequence_gaps_count }, w)

    unfoldable pub advance : ℕ → Watchdog F W → Watchdog F W
    advance n k = record k {
      last_sequence_number = n;
      expected_sequence_number =
          if leb k.expected_sequence_number n then n + 1 else k.expected_sequence_number;
    }

    unfoldable pub status_for : F → Watchdog F W → ConnectionStatus
    status_for latency k =
        if f.le k.config.latency_warning_threshold_ms latency then degraded else connected

    unfoldable pub assess : F → ℕ → Action (Session F W) (Unit {0})
    unfolding status_for move_to
    assess latency now s =
        if same_status (status_for latency s.0) s.0.status
        then (ok tt, s)
        else move_to (status_for latency s.0) now s

    unfoldable pub record_heartbeat :
        Value F → Value F → Value F → Action (Session F W) (HeartbeatRecord F)
    record_heartbeat sequence_number latency_ms timestamp_ns = do
      n ← check (positive_int sequence_number)
      latency ← check (nonneg_risk_scalar latency_ms)
      now ← check (positive_int timestamp_ns)
      modify λ s. (received latency now s.0, s.1)
      detect_gap n now
      modify λ s. (advance n s.0, s.1)
      assess latency now
      s ← get
      check (new_heartbeat_record sequence_number timestamp_ns latency_ms s.0.status)

    -- the move to DISCONNECTED: its listeners first, then those of the status
    unfoldable pub disconnect_session : F → ℕ → Action (Session F W) (Unit {0})
    unfolding notify
    disconnect_session elapsed now (k, w) =
        outside
          (notify k.disconnect_listeners
              (record { gateway_id = k.gateway_id; elapsed_seconds = elapsed; timestamp_ns = now })
            >> notify k.status_listeners (record {
              gateway_id = k.gateway_id;
              old_status = k.status;
              new_status = disconnected;
              timestamp_ns = now;
            }))
          (record k { status = disconnected }, w)

    -- the status by the silence
    unfoldable pub judge : F → ℕ → ℕ → Action (Session F W) (Unit {0})
    unfolding timed_out disconnect_session move_to
    judge elapsed misses now s =
        if timed_out elapsed misses s.0.config
        then (if same_status s.0.status disconnected
            then (ok tt, s)
            else disconnect_session elapsed now s)
        else if leb 1 misses && same_status s.0.status connected
        then move_to degraded now s
        else (ok tt, s)

    -- the silence up to `now` is counted in intervals, and judged
    unfoldable pub measure : ℕ → Action (Session F W) (Unit {0})
    unfolding seconds misses_in judge
    measure now = do
      s ← get
      elapsed ← check (seconds (now - s.0.last_heartbeat_timestamp_ns))
      misses ← check (misses_in elapsed s.0.config)
      modify λ t. (record t.0 { consecutive_misses = misses }, t.1)
      judge elapsed misses now

    unfoldable pub check_liveness : Value F → Action (Session F W) ConnectionStatus
    unfolding measure
    check_liveness current_timestamp_ns = do
      now ← check (positive_int current_timestamp_ns)
      s ← get
      if s.0.last_heartbeat_timestamp_ns == 0
          then modify (λ t. (record t.0 { last_heartbeat_timestamp_ns = now }, t.1))
          else measure now
      s ← get
      pure s.0.status
