-- ===== src/Heartbeat/Sequence.antt =====
-- The sequence numbers of HeartbeatWatchdog in src/quant/execution/heartbeat.py: its count of gaps over
-- any calls, against the numbers that were received.
use quant_stuff.Prelude.{
  ◌≡◌, ◌↔◌, refl, ap, ◌∙◌, inl, inr, ℕ, suc, ◌≤◌, ◌+◌, ◌==◌, Bool, true, false, ◌&&◌, Option, none,
  some, List, [], ◌∷◌, leb, if◌then◌else◌, arith, Bool-cases,
}
use quant_stuff.Float.{Float}
use quant_stuff.Orders.Types.{ok, err}
use quant_stuff.Orders.Validate.{Value}
use quant_stuff.Action.{Action, Result-cases, ends, check, get, modify, ◌>>=◌, ◌>>◌}
use quant_stuff.Risk.Limits.{nonneg_risk_scalar}
use quant_stuff.Heartbeat.Types.{HeartbeatRecord, positive_int, new_heartbeat_record}
use quant_stuff.Heartbeat.Counts.{
  Counts, check_liveness-Counts, mark_reconnecting-Counts, assess-Counts,
}
use quant_stuff.Heartbeat.Watchdog.{
  Session, record_heartbeat, check_liveness, mark_reconnecting, advance, assess, detect_gap,
  received,
}

pub data Call (F : Type 0) : Type 0 where
  heartbeat : Value F → Value F → Value F → Call F
  poll : Value F → Call F
  reconnection : Value F → Call F

-- whether the numbers go up by one from the first expected
unfoldable pub consecutive : ℕ → List ℕ → Bool
consecutive e [] = true
consecutive e (n ∷ ns) = let rest = consecutive (suc e) ns in n == e && rest

expected_next : (n e : ℕ) → (n == e) ≡ true → (if leb e n then n + 1 else e) ≡ suc e
expected_next n e h = ground arith

Agrees : ℕ → ℕ → List ℕ → ℕ → Type 0
Agrees g e ns g' = ((g' ≡ g) → consecutive e ns ≡ true) × (consecutive e ns ≡ true → g' ≡ g)

Agrees-of_next :
    (g e n g' : ℕ) (ns : List ℕ) → (n == e) ≡ true → Agrees g (suc e) ns g' → Agrees g e (n ∷ ns) g'
unfolding Agrees consecutive
Agrees-of_next g e n g' ns d h = rw d h

Agrees-of_gap :
    (g e n g' : ℕ) (ns : List ℕ) → (n == e) ≡ false → suc g ≤ g' → Agrees g e (n ∷ ns) g'
unfolding Agrees consecutive
Agrees-of_gap g e n g' ns d h =
    (λ r. let x : ⊥ = omega arith in absurd x, λ r. let x : ⊥ = ground arith in absurd x)

module _ {F : Type 0} ⦃f : Float F⦄ where
  -- the number of a packet whose arguments are checked
  unfoldable pub accepted : Call F → Option ℕ
  accepted (heartbeat n latency now) = elim (positive_int n) [
    | err e ↦ none
    | ok m ↦ elim (nonneg_risk_scalar latency) [
      | err e ↦ none
      | ok x ↦ elim (positive_int now) [ err e ↦ none | ok t ↦ some m ]
    ]
  ]
  accepted (poll now) = none
  accepted (reconnection now) = none

  unfoldable pub numbers : List (Call F) → List ℕ
  unfolding accepted
  numbers [] = []
  numbers (c ∷ cs) = let rest = numbers cs in elim (accepted c) [ none ↦ rest | some n ↦ n ∷ rest ]

module _ {F W : Type 0} ⦃f : Float F⦄ where
  -- the state after a call, whether it raises or not
  unfoldable pub after : Call F → Session F W → Session F W
  after (heartbeat n latency now) s = (record_heartbeat n latency now s).1
  after (poll now) s = (check_liveness now s).1
  after (reconnection now) s = (mark_reconnecting now s).1

  unfoldable pub run : List (Call F) → Session F W → Session F W
  unfolding after
  run [] s = s
  run (c ∷ cs) s = run cs (after c s)

  -- what follows the test for a gap in `record_heartbeat`
  concluded : Value F → Value F → Value F → ℕ → F → ℕ → Action (Session F W) (HeartbeatRecord F)
  concluded sequence_number latency_ms timestamp_ns n latency now = do
    modify λ s. (advance n s.0, s.1)
    assess latency now
    s ← get
    check (new_heartbeat_record sequence_number timestamp_ns latency_ms s.0.status)

  concluded-Counts :
      (a b c : Value F) (n now g e : ℕ) (latency : F) (s : Session F W)
      → Counts g e (advance n s.0, s.1)
      → Counts g e (concluded a b c n latency now s).1
  unfolding concluded
  concluded-Counts a b c n now g e latency s h =
      let kept = assess-Counts latency now g e (advance n s.0, s.1) h in
      ends (Counts g e) (assess latency now (advance n s.0, s.1)) _ kept λ _ _. kept

  -- how a call counts: not at all, as the number that is expected, or as a gap
  data Counted (c : Call F) (s : Session F W) : Type 0 where
    silent :
        accepted c ≡ none
        → Counts s.0.sequence_gaps_count s.0.expected_sequence_number (after c s)
        → Counted c s
    in_order :
        (n : ℕ)
        → accepted c ≡ some n
        → (n == s.0.expected_sequence_number) ≡ true
        → Counts s.0.sequence_gaps_count (suc s.0.expected_sequence_number) (after c s)
        → Counted c s
    gap :
        (n : ℕ)
        → accepted c ≡ some n
        → (n == s.0.expected_sequence_number) ≡ false
        → ((after c s).0.sequence_gaps_count ≡ suc s.0.sequence_gaps_count)
        → Counted c s

  -- after the checks of the arguments
  tested : (a b c : Value F) (n now : ℕ) (latency : F) (s : Session F W) → Session F W
  tested a b c n now latency s =
      ((detect_gap n now >> concluded a b c n latency now) (received latency now s.0, s.1)).1

  tested-Counted :
      (a b c : Value F) (n now : ℕ) (latency : F) (s : Session F W)
      → accepted (heartbeat a b c) ≡ some n
      → after (heartbeat a b c) s ≡ tested a b c n now latency s
      → Counted (heartbeat a b c) s
  unfolding tested detect_gap Counts advance received
  tested-Counted a b c n now latency s h k = elim (Bool-cases (n == s.0.expected_sequence_number)) [
    | inl q ↦ in_order n h q (
        rw (k, tested, detect_gap, q)
          (concluded-Counts a b c n now _ _ latency (received latency now s.0, s.1)
            (refl, expected_next n s.0.expected_sequence_number q)))
    | inr q ↦
        let d = (detect_gap n now (received latency now s.0, s.1)).1 in
        let counted : d.0.sequence_gaps_count ≡ suc s.0.sequence_gaps_count =
          rw (detect_gap, q) refl in
        gap n h q (
          rw k (
            ends (λ u. u.0.sequence_gaps_count ≡ suc s.0.sequence_gaps_count)
              (detect_gap n now (received latency now s.0, s.1)) _ counted
              λ _ _. (concluded-Counts a b c n now _ _ latency d (counted, refl)).0))
  ]

  heartbeat-Counted : (a b c : Value F) (s : Session F W) → Counted (heartbeat a b c) s
  unfolding after record_heartbeat accepted concluded tested Counts
  heartbeat-Counted a b c s = elim (Result-cases (positive_int a)) [
    | inl (e, q) ↦ silent (rw (accepted, q) refl) (rw (after, record_heartbeat, q) (refl, refl))
    | inr (n, q) ↦ elim (Result-cases (nonneg_risk_scalar b)) [
      | inl (e, r) ↦
          silent (rw (accepted, q, r) refl) (rw (after, record_heartbeat, q, r) (refl, refl))
      | inr (x, r) ↦ elim (Result-cases (positive_int c)) [
        | inl (e, u) ↦
            silent (rw (accepted, q, r, u) refl)
              (rw (after, record_heartbeat, q, r, u) (refl, refl))
        | inr (t, u) ↦
            tested-Counted a b c n t x s (rw (accepted, q, r, u) refl)
              (rw (after, record_heartbeat, q, r, u) refl)
      ]
    ]
  ]

  after-Counted : (c : Call F) (s : Session F W) → Counted c s
  unfolding after accepted Counts
  after-Counted (heartbeat a b c) s = heartbeat-Counted a b c s
  after-Counted (poll now) s = silent refl (check_liveness-Counts now _ _ s (refl, refl))
  after-Counted (reconnection now) s = silent refl (mark_reconnecting-Counts now _ _ s (refl, refl))

  run_grows :
      (cs : List (Call F)) (s : Session F W)
      → s.0.sequence_gaps_count ≤ (run cs s).0.sequence_gaps_count
  unfolding run Counts
  run_grows [] s = omega arith
  run_grows (c ∷ cs) s =
      let later = run_grows cs (after c s) in
      elim (after-Counted c s) [
        | silent _ k ↦ omega arith
        | in_order n _ _ k ↦ omega arith
        | gap n _ _ k ↦ omega arith
      ]

  run-Agrees :
      (cs : List (Call F)) (s : Session F W) (g e : ℕ)
      → Counts g e s
      → Agrees g e (numbers cs) (run cs s).0.sequence_gaps_count
  unfolding run numbers consecutive Counts Agrees
  run-Agrees [] s g e h = (λ _. refl, λ _. h.0)
  run-Agrees (c ∷ cs) s g e h = elim (after-Counted c s) [
    | silent q k ↦ rw (numbers, q) (run-Agrees cs (after c s) g e (k.0 ∙ h.0, k.1 ∙ h.1))
    | in_order n q d k ↦
        rw (numbers, q)
          (Agrees-of_next g e n _ (numbers cs) (rw (← h.1) d)
            (run-Agrees cs (after c s) g (suc e) (k.0 ∙ h.0, k.1 ∙ ap suc h.1)))
    | gap n q d k ↦
        let later = run_grows cs (after c s) in
        rw (numbers, q)
          (Agrees-of_gap g e n _ (numbers cs) (rw (← h.1) d) (let base = h.0 in omega arith))
  ]

  -- Over any calls of record_heartbeat, check_liveness and mark_reconnecting on a watchdog with no gaps,
  -- whatever the listeners do and raise, no gap is counted exactly if the sequence numbers of the packets
  -- whose arguments passed the checks are the expected number and those after it, one by one.
  pub run-gaps :
      (cs : List (Call F)) (s : Session F W)
      → s.0.sequence_gaps_count ≡ 0
      → ((run cs s).0.sequence_gaps_count ≡ 0)
        ↔ (consecutive s.0.expected_sequence_number (numbers cs) ≡ true)
  unfolding Counts Agrees
  run-gaps cs s h = run-Agrees cs s 0 s.0.expected_sequence_number (h, refl)
