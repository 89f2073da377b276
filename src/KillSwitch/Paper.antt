-- ===== src/KillSwitch/Paper.antt =====
-- The paper gateway of src/quant/execution/gateway.py behind the kill switch of
-- src/quant/execution/kill_switch.py.
use quant_stuff.Prelude.{
  ℕ, suc, ◌==◌, ◌≡◌, refl, ap, sym, ◌∙◌, inl, inr, Bool, true, false, not, some, String, List, [],
  ◌∷◌, ◌++◌, All, length, map, arith, strip, Bool-cases, Option-cases,
}
use quant_stuff.Prelude.Dict.{lookup, values}
use quant_stuff.Float.{Float}
use quant_stuff.Orders.Types.{
  ExecutionReport, Result, ok, err, Error, is_terminal, gateway_disconnected,
  invalid_state_transition,
}
use quant_stuff.Orders.Validate.{Value, new_report, report_args, as_str}
use quant_stuff.Fsm.Reports.{apply_execution_report_locked}
use quant_stuff.Idempotency.{text_argument}
use quant_stuff.Action.{Action, ends, raise_when, continue_with}
use quant_stuff.Gateway.Types.{
  Gateway, World, sleep, write, count_report, make_report, apply_report, deregister,
}
use quant_stuff.Gateway.Connection
use quant_stuff.Gateway.Cancel
use quant_stuff.Gateway.Submit
use quant_stuff.Gateway.Cancel.{cancel_order, cancel_at, cancel_report, find}
use quant_stuff.Gateway.Cancel.Effects.{cancel_order-Cancels}
use quant_stuff.KillSwitch.Types.{
  KillSwitch, KillSwitchEvent, KillSwitchState, Venue, armed_standby, cancel_only,
}
use quant_stuff.KillSwitch.Sweep.{attempt, attempt_all, fetch_all, requests}
use quant_stuff.KillSwitch.Panic.{Clock, PanicArgs, Alarm, alarm, trigger_panic}
use quant_stuff.KillSwitch.Cancelled.{Keeps, Closes, ClosedAll}
use quant_stuff.KillSwitch.Protocol.{open_orders, trigger_panic-closes}

abbrev discard : {A S : Type 0} → Result A × S → Result (Unit {0}) × S
discard (ok a, s) = (ok tt, s)
discard (err e, s) = (err e, s)

discard_world : {A S : Type 0} (r : Result A × S) → (discard r).1 ≡ r.1
discard_world (ok a, s) = refl
discard_world (err e, s) = refl

discard_ok :
    {A S : Type 0} (r : Result A × S) (s : S) → discard r ≡ (ok tt, s) → (a : A) × (r ≡ (ok a, s))
discard_ok (ok a, s) s' h = (a, cc)
discard_ok (err e, s) s' h = cc

-- a test that raises, or goes on
raise_when_ends :
    {S A : Type 0} (P : S → Type 0) (c : Bool) (e : Error) (k : Action S A) (s : S)
    → P s
    → P (k s).1
    → P (continue_with (raise_when c e s) (λ _. k)).1
raise_when_ends P true e k s p h = p
raise_when_ends P false e k s p h = h

text_same :
    (F : Type 0) (id id' : String) → text_argument {F = F} (Value.str id) ≡ ok id' → id ≡ id'
unfolding text_argument as_str
text_same F id id' h = ground arith

module _ {F : Type 0} where
  -- the order of an identifier is in the registry and terminal
  pub record Shut (id : String) (g : Gateway F) : Type 0 where
    pub ref : ℕ
    pub registered : lookup (strip id) g.orders ≡ some ref
    pub over : is_terminal (g.store ref) ≡ true

  -- the registry is the same, and an order that is terminal is
  pub record Settled (g g' : Gateway F) : Type 0 where
    pub orders : g'.orders ≡ g.orders
    pub same : (q : ℕ) → is_terminal (g.store q) ≡ true → g'.store q ≡ g.store q

  Settled-refl : (g : Gateway F) → Settled g g
  Settled-refl g = record { orders = refl; same = λ q h. refl }

  Settled-trans : (g g' g'' : Gateway F) → Settled g g' → Settled g' g'' → Settled g g''
  Settled-trans g g' g'' h k = record {
    orders = k.orders ∙ h.orders;
    same = λ q t. k.same q (rw (h.same q t) t) ∙ h.same q t;
  }

  Shut-Settled : (id : String) (g g' : Gateway F) → Settled g g' → Shut id g → Shut id g'
  Shut-Settled id g g' h c = record {
    ref = c.ref;
    registered = ap (lookup (strip id)) h.orders ∙ c.registered;
    over = rw (h.same c.ref c.over) c.over;
  }

  module _ ⦃f : Float F⦄ where
    apply_report-Settled :
        (ref : ℕ) (r : ExecutionReport F) (g : Gateway F) → Settled g (apply_report ref r g).1
    unfolding apply_report write
    apply_report-Settled ref r g = record {
      orders = refl;
      same = λ q h. elim (Bool-cases (q == ref)) [
        | inl e ↦
            let at_ref : q ≡ ref = ground arith in
            rw e (
              rw (apply_execution_report_locked (g.store ref) r (rw (← at_ref) h)) (rw at_ref refl))
        | inr e ↦ rw e refl
      ];
    }

    deregister-Settled : (id : String) (g : Gateway F) → Settled g (deregister id g).1
    unfolding deregister
    deregister-Settled id g = record { orders = refl; same = λ q h. refl }

    cancel_at-Settled : (w : World) (ref : ℕ) (g : Gateway F) → Settled g (cancel_at w ref g).1
    unfolding cancel_at count_report make_report
    cancel_at-Settled w ref g =
        raise_when_ends (Settled g) (is_terminal (g.store ref)) invalid_state_transition _ g
          (Settled-refl g)
          (let g1 : Gateway F = record g { report_counter = suc g.report_counter } in
            let counted : Settled g g1 = record { orders = refl; same = λ q h. refl } in
            ends (Settled g)
              (new_report (report_args (cancel_report w (suc g.report_counter) (g.store ref))), g1)
              _ counted
              λ r _.
                let reported = Settled-trans g g1 _ counted (apply_report-Settled ref r g1) in
                ends (Settled g) (apply_report ref r g1) _ reported λ _ _.
                  let left =
                    Settled-trans g _ _ reported (deregister-Settled (g.store ref).cl_ord_id _) in
                  ends (Settled g) (deregister (g.store ref).cl_ord_id (apply_report ref r g1).1) _
                    left λ _ _. left)

    sleep_alone : (g : Gateway F) → sleep (λ g. g) g ≡ (ok tt, g)
    unfolding sleep
    sleep_alone g = ground arith

    find_leaves : (id : String) (g : Gateway F) → (find id g).1 ≡ g
    unfolding find
    find_leaves id g = elim (Option-cases (lookup id g.orders)) [
      | inl e ↦ rw (find, e)
      | inr (ref, e) ↦ rw (find, e)
    ]

    cancel_order-Settled :
        (w : World) (v : Value F) (g : Gateway F) → Settled g (cancel_order w (λ g. g) v g).1
    unfolding cancel_order
    cancel_order-Settled w v g =
        raise_when_ends (Settled g) (not g.is_connected) gateway_disconnected _ g (Settled-refl g) (
          ends (Settled g) (text_argument v, g) _ (Settled-refl g)
            λ id _. rw (sleep_alone g) (
              ends (Settled g) (find (strip id) g) _
                (rw (find_leaves (strip id) g) (Settled-refl g))
                λ ref _. rw (find_leaves (strip id) g) (cancel_at-Settled w ref g)))

    -- The gateway as the switch calls it, while no other task uses it. `place` is where an order that the
    -- switch makes stands.
    unfoldable pub paper_venue : World → (Gateway F → ℕ) → Venue F (Gateway F)
    paper_venue w place = record {
      get_open_orders =
          λ g. (ok (map (λ ref. (g.store ref).cl_ord_id) (Connection.get_open_orders g)), g);
      get_positions = λ g. (ok (Connection.get_positions g), g);
      cancel_order = λ id g. discard (Cancel.cancel_order w (λ g. g) (Value.str id) g);
      submit_order =
          λ o g. discard (Submit.submit_order w (λ g. g) (place g) (write (place g) o g));
    }

    pub paper_venue-Closes : (w : World) (place : Gateway F → ℕ) → Closes Shut (paper_venue w place)
    unfolding paper_venue
    paper_venue-Closes w place = record {
      cancel_closes = λ id g g' h.
          let (r, e) = discard_ok (cancel_order w (λ g. g) (Value.str id) g) g' h in
          let (id', named, c) = cancel_order-Cancels w (λ g. g) (Value.str id) g r g' e in
          rw (text_same F id id' named) (record {
            ref = c.ref;
            registered = ap (lookup (strip id')) c.booked.orders ∙ c.found;
            over = rw (c.booked.state) refl;
          });
      cancel_keeps = λ id j g c.
          rw (discard_world (cancel_order w (λ g. g) (Value.str id) g))
            (Shut-Settled j g _ (cancel_order-Settled w (Value.str id) g) c);
      positions_keep = λ j g c. c;
    }

    -- every request of a list of identifiers
    Shut-each :
        (v : Venue F (Gateway F)) (g g' : Gateway F) (refs : List ℕ)
        → ClosedAll Shut (map (λ id. (v, id)) (map (λ ref. (g.store ref).cl_ord_id) refs) ++ []) g'
        → All (λ ref. Shut (g.store ref).cl_ord_id g') refs
    Shut-each v g g' [] h = tt
    Shut-each v g g' (ref ∷ refs) h = (h.0, Shut-each v g g' refs (h.1))

    length-requests :
        (v : Venue F (Gateway F)) (g : Gateway F) (refs : List ℕ)
        → length {A = Venue F (Gateway F) × String}
            (map (λ id. (v, id)) (map (λ ref. (g.store ref).cl_ord_id) refs) ++ [])
          ≡ length refs
    length-requests v g [] = refl
    length-requests v g (ref ∷ refs) = ap suc (length-requests v g refs)

    -- If the only gateway of an armed switch is a paper gateway, and a panic that does not liquidate
    -- returns an event that counts as many cancelled orders as the gateway had open once the scheduler hooks
    -- had run, then each of these orders is in the registry of the gateway and terminal at the end. Listeners
    -- are taken to keep it so, and no other task to use the gateway.
    pub trigger_panic-paper :
        (w : World) (place : Gateway F → ℕ) (gid : String) (clock : Clock)
        (during : KillSwitchState → KillSwitchState) (k k' : KillSwitch F (Gateway F))
        (g g' : Gateway F) (args : PanicArgs F) (a : Alarm) (event : KillSwitchEvent F)
        → k.gateways ≡ (gid, paper_venue w place) ∷ []
        → All
            (λ (l : KillSwitchEvent F → Action (Gateway F) (Unit {0})).
              (e : KillSwitchEvent F) → Keeps Shut (l e))
            k.panic_listeners
        → k.state ≡ armed_standby
        → alarm clock args ≡ ok a
        → a.mode ≡ cancel_only
        → trigger_panic clock during args (k, g) ≡ (ok event, (k', g'))
        → event.cancelled_orders_count
          ≡ length (Connection.get_open_orders (attempt_all k.scheduler_hooks g))
        → let g1 = attempt_all k.scheduler_hooks g in
          All (λ ref. Shut (g1.store ref).cl_ord_id g') (Connection.get_open_orders g1)
    unfolding fetch_all requests attempt paper_venue values
    trigger_panic-paper w place gid clock during k k' g g' args a event only kept armed checked mode
          h all_done =
        let g1 = attempt_all k.scheduler_hooks g in
        let v = paper_venue w place in
        let refs = Connection.get_open_orders g1 in
        let asked : open_orders k g
            ≡ map (λ id. (v, id)) (map (λ ref. (g1.store ref).cl_ord_id) refs) ++ [] =
          ap (λ gateways. requests (fetch_all gateways g1).0) only in
        let outcome =
          trigger_panic-closes Shut clock during k g (rw only (paper_venue-Closes w place, tt)) kept
            args a event k' g' armed checked (inl mode) h
            (all_done ∙ sym (rw asked (length-requests v g1 refs))) in
        Shut-each v g1 g' refs (rw asked at (outcome.2))
