-- ===== src/Heartbeat/Tests.antt =====
-- The watchdog of src/quant/execution/heartbeat.py at concrete values.
use quant_stuff.Prelude.{◌≡◌, ◌↔◌, refl, ℕ, ◌+◌, true, none, List, [], ◌∷◌, pos, is_blank, strip}
use quant_stuff.Float.{Fixed, decimal, fixed_float}
use quant_stuff.Orders.Types.{ok, err, value_error}
use quant_stuff.Orders.Validate.{Value, as_str}
use quant_stuff.Risk.Limits.{nonneg_risk_scalar, risk_scalar, finite_or_raise}
use quant_stuff.Heartbeat.Types.{
  Watchdog, Listener, fix, disconnected, connected, positive_int, nonneg_int, gateway_text,
  default_config, new_watchdog,
}
use quant_stuff.Heartbeat.Listeners.{notify}
use quant_stuff.Heartbeat.Watchdog.{
  record_heartbeat, check_liveness, measure, judge, seconds, misses_in, timed_out,
  disconnect_session, move_to, received, detect_gap, append_latency,
}
use quant_stuff.Heartbeat.Sequence.{
  Call, heartbeat, poll, run, after, numbers, accepted, consecutive, run-gaps,
}
use quant_stuff.Heartbeat.Silence.{polled, Lost, check_liveness-Lost_after}

-- a listener that counts in the world what it is told
abbrev counting : {A : Type 0} → Listener A ℕ
counting = record { identity = 1; call = λ a n. (ok tt, n + 1) }

-- one that raises
abbrev failing : {A : Type 0} → Listener A ℕ
failing = record { identity = 2; call = λ a n. (err value_error, n) }

abbrev fresh : Watchdog Fixed ℕ
fresh = record {
  gateway_id = "NYSE";
  config = record {
    heartbeat_interval_seconds = decimal 1 0;
    timeout_seconds = decimal 3 0;
    max_consecutive_misses = 3;
    latency_warning_threshold_ms = decimal 250 0;
    latency_critical_threshold_ms = decimal 1000 0;
  };
  protocol = fix;
  status = connected;
  last_heartbeat_timestamp_ns = 0;
  last_sequence_number = 0;
  expected_sequence_number = 1;
  consecutive_misses = 0;
  sequence_gaps_count = 0;
  recent_latencies = [];
  status_listeners = [];
  sequence_gap_listeners = [];
  disconnect_listeners = [];
}

made :
    new_watchdog (Value.str "NYSE") none fix (Value.int (pos 1)) (Value.int (pos 0)) connected
    ≡ ok fresh
unfolding new_watchdog default_config gateway_text as_str positive_int nonneg_int is_blank strip
made = refl

abbrev beat : ℕ → Call Fixed
beat n = heartbeat (Value.int (pos n)) (Value.flt (decimal 5 0)) (Value.int (pos 1000))

-- Packets 1, 2 and 3, with a look at the clock between.
abbrev orderly : List (Call Fixed)
orderly = beat 1 ∷ beat 2 ∷ poll (Value.int (pos 2000)) ∷ beat 3 ∷ []

run-gaps_example :
    ((run orderly (fresh, 0)).0.sequence_gaps_count ≡ 0) ↔ (consecutive 1 (numbers orderly) ≡ true)
run-gaps_example = run-gaps orderly (fresh, 0) refl

in_order : consecutive 1 (numbers orderly) ≡ true
unfolding consecutive numbers accepted positive_int nonneg_int nonneg_risk_scalar risk_scalar
    finite_or_raise
in_order = refl

abbrev deaf : Watchdog Fixed ℕ
deaf = record fresh { sequence_gap_listeners = failing ∷ [] }

-- After a gap whose listener raises, the expected number is not moved on, and the packet is lost.
stuck : (run (beat 5 ∷ beat 6 ∷ []) (deaf, 0)).0.expected_sequence_number ≡ 1
unfolding run after record_heartbeat positive_int nonneg_int nonneg_risk_scalar risk_scalar
    finite_or_raise received detect_gap notify append_latency
stuck = refl

-- A watchdog that heard a packet a second after the epoch, with a listener of each kind.
abbrev listening : Watchdog Fixed ℕ
listening = record fresh {
  last_heartbeat_timestamp_ns = 1_000_000_000;
  status_listeners = counting ∷ [];
  disconnect_listeners = counting ∷ [];
}

-- Four seconds later it is lost, and both are told once.
abbrev four_later : Value Fixed
four_later = Value.int (pos 5_000_000_000)

told_once : (polled (four_later ∷ four_later ∷ four_later ∷ []) (listening, 0)).1 ≡ 2
unfolding polled check_liveness measure judge seconds misses_in timed_out disconnect_session move_to
    notify positive_int nonneg_int
told_once = refl

abbrev mute : Watchdog Fixed ℕ
mute = record listening { disconnect_listeners = failing ∷ [] }

-- A listener of the disconnection that raises keeps those of the status from being told, for good.
never_told : (polled (four_later ∷ four_later ∷ []) (mute, 0)).1 ≡ 0
unfolding polled check_liveness measure judge seconds misses_in timed_out disconnect_session move_to
    notify positive_int nonneg_int
never_told = refl

found_time : positive_int four_later ≡ ok 5_000_000_000
unfolding positive_int nonneg_int
found_time = refl

found_seconds : seconds {F = Fixed} 4_000_000_000 ≡ ok (decimal 4 0)
unfolding seconds
found_seconds = refl

found_misses : misses_in (decimal 4 0) listening.config ≡ ok 4
unfolding misses_in
found_misses = refl

found_silence : timed_out (decimal 4 0) 4 listening.config ≡ true
unfolding timed_out
found_silence = refl

check_liveness-Lost_after_example :
    ((check_liveness four_later (listening, 0)).1.0.status ≡ disconnected)
    × Lost
        (check_liveness four_later (listening, 0)).1.1
        (polled (four_later ∷ []) (check_liveness four_later (listening, 0)).1)
check_liveness-Lost_after_example =
    check_liveness-Lost_after four_later (four_later ∷ []) (listening, 0) 5_000_000_000
      (decimal 4 0) 4 found_time refl found_seconds found_misses found_silence
