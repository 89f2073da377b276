-- ===== src/Heartbeat/Counts.antt =====
-- What keeps the gaps and the expected number of HeartbeatWatchdog in src/quant/execution/heartbeat.py.
use quant_stuff.Prelude.{◌≡◌, inl, inr, ℕ, ◌==◌, ◌&&◌, leb, Bool-cases}
use quant_stuff.Float.{Float}
use quant_stuff.Orders.Validate.{Value}
use quant_stuff.Action.{ends}
use quant_stuff.Heartbeat.Types.{
  positive_int, nonneg_int, same_status, reconnecting, disconnected, connected,
}
use quant_stuff.Heartbeat.Watchdog.{
  Session, check_liveness, mark_reconnecting, move_to, assess, status_for, measure, judge, seconds,
  misses_in, timed_out, disconnect_session,
}

module _ {F W : Type 0} ⦃f : Float F⦄ where
  -- the gaps and the expected number of a session
  unfoldable pub Counts : ℕ → ℕ → Session F W → Type 0
  Counts g e s = (s.0.sequence_gaps_count ≡ g) × (s.0.expected_sequence_number ≡ e)

  move_to-Counts :
      (status : _) (now g e : ℕ) (s : Session F W)
      → Counts g e s
      → Counts g e (move_to status now s).1
  unfolding Counts move_to
  move_to-Counts status now g e s h = h

  judge-Counts :
      (elapsed : F) (misses now g e : ℕ) (s : Session F W)
      → Counts g e s
      → Counts g e (judge elapsed misses now s).1
  unfolding Counts judge move_to disconnect_session
  judge-Counts elapsed misses now g e s h =
      elim (Bool-cases (timed_out elapsed misses s.0.config)) [
        | inl t ↦ elim (Bool-cases (same_status s.0.status disconnected)) [
          | inl d ↦ rw (t, d) h
          | inr d ↦ rw (t, d) h
        ]
        | inr t ↦ elim (Bool-cases (leb 1 misses && same_status s.0.status connected)) [
          | inl d ↦ rw (t, d) h
          | inr d ↦ rw (t, d) h
        ]
      ]

  measure-Counts : (now g e : ℕ) (s : Session F W) → Counts g e s → Counts g e (measure now s).1
  unfolding measure Counts
  measure-Counts now g e s h =
      ends (Counts g e) (seconds _, s) _ h
        λ elapsed _.
          ends (Counts g e) (misses_in elapsed s.0.config, s) _ h
            λ misses _.
              judge-Counts elapsed misses now g e (record s.0 { consecutive_misses = misses }, s.1)
                h

  pub check_liveness-Counts :
      (v : Value F) (g e : ℕ) (s : Session F W) → Counts g e s → Counts g e (check_liveness v s).1
  unfolding check_liveness Counts
  check_liveness-Counts v g e s h =
      ends (Counts g e) (positive_int v, s) _ h
        λ now _. elim (Bool-cases (s.0.last_heartbeat_timestamp_ns == 0)) [
          | inl c ↦ rw c h
          | inr c ↦ rw c (
              ends (Counts g e) (measure now s) _ (measure-Counts now g e s h)
                λ _ _. measure-Counts now g e s h)
        ]

  pub mark_reconnecting-Counts :
      (v : Value F) (g e : ℕ) (s : Session F W)
      → Counts g e s
      → Counts g e (mark_reconnecting v s).1
  unfolding mark_reconnecting
  mark_reconnecting-Counts v g e s h =
      ends (Counts g e) (nonneg_int v, s) _ h
        λ now _. elim (Bool-cases (same_status s.0.status reconnecting)) [
          | inl c ↦ rw c h
          | inr c ↦ rw c (move_to-Counts reconnecting now g e s h)
        ]

  pub assess-Counts :
      (latency : F) (now g e : ℕ) (s : Session F W)
      → Counts g e s
      → Counts g e (assess latency now s).1
  unfolding assess
  assess-Counts latency now g e s h =
      elim (Bool-cases (same_status (status_for latency s.0) s.0.status)) [
        | inl c ↦ rw c h
        | inr c ↦ rw c (move_to-Counts (status_for latency s.0) now g e s h)
      ]
