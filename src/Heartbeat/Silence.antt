-- ===== src/Heartbeat/Silence.antt =====
-- The silence that HeartbeatWatchdog of src/quant/execution/heartbeat.py looks for, and the alarm.
use quant_stuff.Prelude.{
  ◌≡◌, refl, inl, inr, ℕ, ◌-◌, ◌==◌, true, false, List, [], ◌∷◌, leb, Bool-cases, arith,
}
use quant_stuff.Float.{Float}
use quant_stuff.Orders.Types.{ok}
use quant_stuff.Orders.Validate.{Value}
use quant_stuff.Action.{ends}
use quant_stuff.Heartbeat.Types.{
  ConnectionStatus, positive_int, same_status, disconnected, connected,
}
use quant_stuff.Heartbeat.Watchdog.{
  Session, check_liveness, measure, judge, seconds, misses_in, timed_out, disconnect_session,
}

same_status_refl : (a : ConnectionStatus) → a ≡ disconnected → same_status a disconnected ≡ true
same_status_refl a h = rw h refl

same_status_other : (a : ConnectionStatus) → a ≡ disconnected → same_status a connected ≡ false
same_status_other a h = rw h refl

disconnected_of_same : (a : ConnectionStatus) → same_status a disconnected ≡ true → a ≡ disconnected
disconnected_of_same a h = ground arith

module _ {F W : Type 0} ⦃f : Float F⦄ where
  -- the state after calls of `check_liveness`, those that raise included
  unfoldable pub polled : List (Value F) → Session F W → Session F W
  polled [] s = s
  polled (v ∷ vs) s = polled vs (check_liveness v s).1

  -- disconnected, and no listener told since `w`
  pub Lost : W → Session F W → Type 0
  Lost w s = (s.0.status ≡ disconnected) × (s.1 ≡ w)

  judge-Lost :
      (elapsed : F) (misses now : ℕ) (w : W) (s : Session F W)
      → Lost w s
      → Lost w (judge elapsed misses now s).1
  unfolding Lost judge
  judge-Lost elapsed misses now w s h = elim (Bool-cases (timed_out elapsed misses s.0.config)) [
    | inl t ↦ rw (t, same_status_refl s.0.status h.0) h
    | inr t ↦ elim (Bool-cases (leb 1 misses)) [
      | inl m ↦ rw (t, m, same_status_other s.0.status h.0) h
      | inr m ↦ rw (t, m) h
    ]
  ]

  measure-Lost : (now : ℕ) (w : W) (s : Session F W) → Lost w s → Lost w (measure now s).1
  unfolding measure Lost
  measure-Lost now w s h =
      ends (Lost w) (seconds _, s) _ h
        λ elapsed _.
          ends (Lost w) (misses_in elapsed s.0.config, s) _ h
            λ misses _.
              judge-Lost elapsed misses now w (record s.0 { consecutive_misses = misses }, s.1) h

  check_liveness-Lost :
      (v : Value F) (w : W) (s : Session F W) → Lost w s → Lost w (check_liveness v s).1
  unfolding check_liveness Lost
  check_liveness-Lost v w s h =
      ends (Lost w) (positive_int v, s) _ h
        λ now _. elim (Bool-cases (s.0.last_heartbeat_timestamp_ns == 0)) [
          | inl c ↦ rw c h
          | inr c ↦
              let kept = measure-Lost now w s h in
              rw c (ends (Lost w) (measure now s) _ kept λ _ _. kept)
        ]

  polled-Lost : (vs : List (Value F)) (w : W) (s : Session F W) → Lost w s → Lost w (polled vs s)
  unfolding polled
  polled-Lost [] w s h = h
  polled-Lost (v ∷ vs) w s h = polled-Lost vs w (check_liveness v s).1 (check_liveness-Lost v w s h)

  judge_disconnects :
      (elapsed : F) (misses now : ℕ) (s : Session F W)
      → timed_out elapsed misses s.0.config ≡ true
      → (judge elapsed misses now s).1.0.status ≡ disconnected
  unfolding judge disconnect_session
  judge_disconnects elapsed misses now s t =
      elim (Bool-cases (same_status s.0.status disconnected)) [
        | inl d ↦ rw (t, d) (disconnected_of_same s.0.status d)
        | inr d ↦ rw (t, d) refl
      ]

  measure_disconnects :
      (now : ℕ) (s : Session F W) (elapsed : F) (misses : ℕ)
      → seconds (now - s.0.last_heartbeat_timestamp_ns) ≡ ok elapsed
      → misses_in elapsed s.0.config ≡ ok misses
      → timed_out elapsed misses s.0.config ≡ true
      → (measure now s).1.0.status ≡ disconnected
  unfolding measure
  measure_disconnects now s elapsed misses q r t =
      rw (measure, q, r)
        (judge_disconnects elapsed misses now (record s.0 { consecutive_misses = misses }, s.1) t)

  -- If at a call of `check_liveness` a heartbeat has been seen, and the time since the last is at least the
  -- timeout or has as many intervals as may be missed, then the watchdog is disconnected after the call,
  -- whatever the listeners do and raise, and it stays so over any further calls of `check_liveness`, none
  -- of which tells a listener anything.
  pub check_liveness-Lost_after :
      (v : Value F) (further : List (Value F)) (s : Session F W) (now : ℕ) (elapsed : F)
      (misses : ℕ)
      → positive_int v ≡ ok now
      → (s.0.last_heartbeat_timestamp_ns == 0) ≡ false
      → seconds (now - s.0.last_heartbeat_timestamp_ns) ≡ ok elapsed
      → misses_in elapsed s.0.config ≡ ok misses
      → timed_out elapsed misses s.0.config ≡ true
      → ((check_liveness v s).1.0.status ≡ disconnected)
        × Lost (check_liveness v s).1.1 (polled further (check_liveness v s).1)
  unfolding check_liveness Lost
  check_liveness-Lost_after v further s now elapsed misses p c q r t =
      let fell = measure_disconnects now s elapsed misses q r t in
      let here : (check_liveness v s).1.0.status ≡ disconnected =
        rw (check_liveness, p, c)
          (ends (λ u. u.0.status ≡ disconnected) (measure now s) _ fell λ _ _. fell) in
      (here, polled-Lost further _ (check_liveness v s).1 (here, refl))
