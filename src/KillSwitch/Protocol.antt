-- ===== src/KillSwitch/Protocol.antt =====
-- The whole of a panic in src/quant/execution/kill_switch.py: the orders that it closes.
use mathlib.Core.Path.{subst}
use quant_stuff.Prelude.{
  ℕ, ◌&&◌, ◌≡◌, ◌≢◌, refl, ap, ◌∙◌, sym, ◌⊎◌, inl, inr, Bool, true, false, some, String, List, [],
  ◌∷◌, All, All-map, All-append, arith, length, map, Option-cases, if◌then◌else◌,
}
use quant_stuff.Prelude.Dict.{Dict, values}
use quant_stuff.Float.{Float, lt, absolute}
use quant_stuff.Orders.Types.{◌>>=◌ as ◌bind◌}
use quant_stuff.Orders.Types.{Order, Result, ok, err, ok_injective}
use quant_stuff.Orders.Ensures.{Ensures, Ensures-bind, ensured, returns, raises}
use quant_stuff.Orders.Ensures as Ensured
use quant_stuff.Action.{Action, Result-cases, ends, Yields, Yields-bind, yielded}
use quant_stuff.Action as Act
use quant_stuff.KillSwitch.Types.{
  KillSwitch, KillSwitchEvent, KillSwitchState, panic_triggered, disarmed, armed_standby, Venue,
  PanicMode, cancel_only, cancel_and_flatten, new_event,
}
use quant_stuff.KillSwitch.Sweep.{
  attempt, attempt_all, Fetched, fetch_all, requests, cancel_all, execute_gateway_cancellations,
  flat_orders, collect, submit_all, flatten_positions,
}
use quant_stuff.KillSwitch.Panic.{
  Clock, PanicArgs, Alarm, alarm, liquidate, publish, conclude, protocol, respond, trigger_panic,
}
use quant_stuff.KillSwitch.Cancelled.{
  Keeps, SubmitKeeps, attempt-Keeps, attempt_all-Keeps, Closes, Promised, ClosedAll,
  cancel_all-ClosedAll,
}

lifted :
    {W A : Type 0} (P : A → Type 0) (r : Result A) (w : W)
    → Ensures P r
    → Yields (λ a _. P a) (r, w)
lifted P (ok a) w (returns p) = Act.returns p
lifted P (err e) w raises = Act.raises

module _ {F W : Type 0} where
  -- the orders that a panic asks the gateways to cancel, once the hooks have run
  abbrev pub open_orders : KillSwitch F W → W → List (Venue F W × String)
  open_orders k w = requests (fetch_all k.gateways (attempt_all k.scheduler_hooks w)).0

module _ {F W : Type 0} (Closed : String → W → Type 0) where
  fetch_all-Closes :
      (gateways : Dict (Venue F W)) (w : W)
      → All (Closes Closed) (values gateways)
      → All (λ (x : Fetched F W). Closes Closed x.venue) (fetch_all gateways w).0
  unfolding fetch_all values
  fetch_all-Closes [] w h = tt
  fetch_all-Closes ((id, v) ∷ gateways) w h = (h.0, fetch_all-Closes gateways _ (h.1))

  named-Promised :
      (v : Venue F W) (ids : List String)
      → Closes Closed v
      → Promised Closed (map (λ id. (v, id)) ids)
  named-Promised v [] h = tt
  named-Promised v (id ∷ ids) h = (h, named-Promised v ids h)

  requests-Promised :
      (xs : List (Fetched F W))
      → All (λ (x : Fetched F W). Closes Closed x.venue) xs
      → Promised Closed (requests xs)
  unfolding requests
  requests-Promised [] h = tt
  requests-Promised (x ∷ xs) h = elim (Option-cases x.orders) [
    | inl e ↦ rw (e, requests) (requests-Promised xs (h.1))
    | inr (ids, e) ↦
        rw (e, requests)
          (All-append _ (map (λ id. (x.venue, id)) ids) (requests xs)
            (named-Promised x.venue ids (h.0)) (requests-Promised xs (h.1)))
  ]

  abbrev Placed : List (Venue F W × Order F) → Type 0
  Placed os = All (λ (o : Venue F W × Order F). SubmitKeeps Closed o.0) os

  submit_all-Keeps :
      (os : List (Venue F W × Order F))
      → Placed os
      → (j : String) (w : W) → Closed j w
      → Closed j (submit_all os w)
  unfolding submit_all
  submit_all-Keeps os h = attempt_all-Keeps Closed _ (submissions os h)
    where
      submissions :
          (os : List (Venue F W × Order F))
          → Placed os
          → All (Keeps Closed) (map (λ (o : Venue F W × Order F). o.0.submit_order o.1) os)
      submissions [] h = tt
      submissions ((v, o) ∷ os) h = (h.0 o, submissions os (h.1))

  here-Placed :
      (v : Venue F W) (c : Bool) (r : Result (Order F))
      → SubmitKeeps Closed v
      → Ensures Placed (if c then (r bind λ o. ok ((v, o) ∷ [])) else ok [])
  here-Placed v true r h = Ensures-bind (Ensured.anything r) λ o _. returns (h, tt)
  here-Placed v false r h = returns tt

  module _ ⦃f : Float F⦄ where
    flat_orders-Placed :
        (gw_id : String) (v : Venue F W) (now : ℕ) (positions : Dict F) (counter : ℕ)
        → SubmitKeeps Closed v
        → Ensures
            (λ (r : List (Venue F W × Order F) × ℕ). Placed r.0)
            (flat_orders gw_id v now positions counter)
    unfolding flat_orders
    flat_orders-Placed gw_id v now [] counter h = returns tt
    flat_orders-Placed gw_id v now ((sym, qty) ∷ positions) counter h =
        Ensures-bind (here-Placed v (f.is_finite qty && lt (f.lit 1 7) (absolute qty)) _ h)
          λ here p.
            Ensures-bind (flat_orders-Placed gw_id v now positions _ h)
              λ rest q. returns (All-append _ here rest.0 p q)

    collect-Placed :
        (now : ℕ) (gateways : Dict (Venue F W)) (counter : ℕ) (w : W)
        → All (SubmitKeeps Closed) (values gateways)
        → Yields (λ os _. Placed os) (collect now gateways counter w)
    unfolding collect values
    collect-Placed now [] counter w h = Act.returns tt
    collect-Placed now ((gw_id, v) ∷ gateways) counter w h =
        Yields-bind {P = λ (here : List (Venue F W × Order F) × ℕ) _. Placed here.0}
          (lifted (λ (here : List (Venue F W × Order F) × ℕ). Placed here.0) _ _
            (flat_orders-Placed gw_id v now _ counter (h.0)))
          λ here w1 p.
            Yields-bind (collect-Placed now gateways here.1 w1 (h.1))
              λ rest w2 q. Act.returns (All-append _ here.0 rest p q)

    collect-Keeps :
        (now : ℕ) (gateways : Dict (Venue F W)) (counter : ℕ)
        → All (Closes Closed) (values gateways)
        → Keeps Closed (collect now gateways counter)
    unfolding collect values
    collect-Keeps now [] counter h j w c = c
    collect-Keeps now ((gw_id, v) ∷ gateways) counter h j w c =
        let fetched = attempt-Keeps Closed v.get_positions ((h.0).positions_keep) j w c in
        ends (Closed j) (flat_orders gw_id v now _ counter, (attempt v.get_positions w).1) _ fetched
          λ here _.
            let rest = collect-Keeps now gateways here.1 (h.1) j _ fetched in
            ends (Closed j) (collect now gateways here.1 (attempt v.get_positions w).1) _ rest
              λ _ _. rest

    -- nothing is submitted, or no submission opens an order that is closed
    abbrev pub Harmless : PanicMode → KillSwitch F W → Type 0
    Harmless mode k = (mode ≡ cancel_only) ⊎ All (SubmitKeeps Closed) (values k.gateways)

    liquidate-Keeps :
        (mode : PanicMode) (now : ℕ) (k : KillSwitch F W)
        → All (Closes Closed) (values k.gateways)
        → Harmless mode k
        → Keeps Closed (liquidate mode now k)
    unfolding liquidate flatten_positions
    liquidate-Keeps cancel_only now k h s j w c = c
    liquidate-Keeps cancel_and_flatten now k h (inl s) j w c = absurd (distinct s)
      where
        distinct : cancel_and_flatten ≢ cancel_only
        distinct p = cc
    liquidate-Keeps cancel_and_flatten now k h (inr s) j w c =
        let kept = collect-Keeps now k.gateways 0 h j w c in
        ends (Closed j) (collect now k.gateways 0 w) _ kept λ orders e.
          submit_all-Keeps orders (yielded orders _ (collect-Placed now k.gateways 0 w s) e) j _
            kept

    new_event-same : (e e' : KillSwitchEvent F) → new_event e ≡ ok e' → e ≡ e'
    unfolding new_event
    new_event-same e e' h = ground arith

    listeners-Keep :
        (event : KillSwitchEvent F) (ls : List (KillSwitchEvent F → Action W (Unit {0})))
        → All
            (λ (l : KillSwitchEvent F → Action W (Unit {0})).
              (e : KillSwitchEvent F) → Keeps Closed (l e))
            ls
        → All (Keeps Closed) (map (λ (l : KillSwitchEvent F → Action W (Unit {0})). l event) ls)
    listeners-Keep event [] h = tt
    listeners-Keep event (l ∷ ls) h = (h.0 event, listeners-Keep event ls (h.1))

    -- What is left when a panic returns its event.
    conclude_lem :
        (sold : Result (Unit {0})) (r : Result (KillSwitchEvent F)) (k k' : KillSwitch F W)
        (w w' : W) (event : KillSwitchEvent F)
        → conclude sold r (k, w) ≡ (ok event, (k', w'))
        → (r ≡ ok event)
          × (k' ≡ record k { last_event = some event })
          × (w'
              ≡ attempt_all
                  (map (λ (l : KillSwitchEvent F → Action W (Unit {0})). l event) k.panic_listeners)
                  w)
    unfolding conclude publish
    conclude_lem (err e) r k k' w w' event h = cc
    conclude_lem (ok _) (err e) k k' w w' event h = cc
    conclude_lem (ok _) (ok e) k k' w w' event h =
        subst
          (λ x.
            (ok e ≡ ok x)
            × (k' ≡ record k { last_event = some x })
            × (w'
                ≡ attempt_all
                    (map (λ (l : KillSwitchEvent F → Action W (Unit {0})). l x) k.panic_listeners)
                    w))
          (ok_injective (ap (λ p. p.0) h)) (refl, sym (ap (λ p. p.1.0) h), sym (ap (λ p. p.1.1) h))

    respond_armed :
        (clock : Clock) (during : KillSwitchState → KillSwitchState) (a : Alarm)
        (state : KillSwitchState) (s : KillSwitch F W × W)
        → state ≡ armed_standby
        → respond clock during a state s ≡ protocol clock during a s
    unfolding respond
    respond_armed clock during a armed_standby s h = refl
    respond_armed clock during a panic_triggered s h = cc
    respond_armed clock during a disarmed s h = cc

    abbrev pub Outcome :
        (KillSwitchState → KillSwitchState)
        → KillSwitch F W
        → W
        → KillSwitchEvent F
        → KillSwitch F W
        → W
        → Type 0
    Outcome during k w event k' w' =
        (k'.state ≡ during panic_triggered)
        × (k'.last_event ≡ some event)
        × ClosedAll Closed (open_orders k w) w'

    module _ (clock : Clock) (during : KillSwitchState → KillSwitchState) (k : KillSwitch F W)
        (w : W) (gateways : All (Closes Closed) (values k.gateways))
        (listeners : All
          (λ (l : KillSwitchEvent F → Action W (Unit {0})).
            (e : KillSwitchEvent F) → Keeps Closed (l e))
          k.panic_listeners) where
      protocol-Outcome :
          (a : Alarm) (event : KillSwitchEvent F) (k' : KillSwitch F W) (w' : W)
          → protocol clock during a (k, w) ≡ (ok event, (k', w'))
          → event.cancelled_orders_count ≡ length (open_orders k w)
          → Harmless a.mode k
          → Outcome during k w event k' w'
      unfolding protocol execute_gateway_cancellations
      protocol-Outcome a event k' w' h all_done harmless =
          let w1 = attempt_all k.scheduler_hooks w in
          let fetched = fetch_all k.gateways w1 in
          let rs = requests fetched.0 in
          let cancelled = cancel_all rs fetched.1 in
          let (made, switched, told) = conclude_lem _ _ _ k' _ w' event h in
          let promised = requests-Promised fetched.0 (fetch_all-Closes k.gateways w1 gateways) in
          let counted : cancelled.0 ≡ length rs =
            ap (λ (e : KillSwitchEvent F). e.cancelled_orders_count) (new_event-same _ event made)
            ∙ all_done in
          (
            ap (λ (x : KillSwitch F W). x.state) switched,
            ap (λ (x : KillSwitch F W). x.last_event) switched,
            All-map _ _
                (λ r c. rw told (
                  attempt_all-Keeps Closed _ (listeners-Keep event k.panic_listeners listeners) r.1
                    _ (liquidate-Keeps a.mode clock.flatten_time k gateways harmless r.1 _ c)))
                rs (cancel_all-ClosedAll Closed rs fetched.1 promised counted),
          )

      -- If a panic of an armed switch returns its event, and the event counts as many cancelled orders as
      -- the gateways listed as open once the scheduler hooks had run, then all these orders are closed at the
      -- end, also after the positions are liquidated and the listeners told. The event is kept, and the state
      -- is what other tasks made of PANIC_TRIGGERED meanwhile. A cancellation that returns is taken
      -- to close its order, and no cancellation, query or listener to open one that is closed, nor a
      -- submission if the positions are liquidated.
      pub trigger_panic-closes :
          (args : PanicArgs F) (a : Alarm) (event : KillSwitchEvent F) (k' : KillSwitch F W)
          (w' : W)
          → k.state ≡ armed_standby
          → alarm clock args ≡ ok a
          → Harmless a.mode k
          → trigger_panic clock during args (k, w) ≡ (ok event, (k', w'))
          → event.cancelled_orders_count ≡ length (open_orders k w)
          → (k'.state ≡ during panic_triggered)
            × (k'.last_event ≡ some event)
            × ClosedAll Closed (open_orders k w) w'
      unfolding trigger_panic
      trigger_panic-closes args a event k' w' armed checked harmless h all_done =
          protocol-Outcome a event k' w'
            (sym (respond_armed clock during a k.state (k, w) armed) ∙ (rw checked at h)) all_done
            harmless
