-- ===== src/KillSwitch/Lockout.antt =====
-- The panic state of EmergencyKillSwitch in src/quant/execution/kill_switch.py under any calls.
use quant_stuff.Prelude.{
  ◌≡◌, ◌≢◌, ◌∙◌, refl, ap, inl, inr, false, Option, none, some, String, List, [], ◌∷◌, All, arith,
  Bool-cases, str_eq, str_eq_iff, strip, if◌then◌else◌,
}
use quant_stuff.Float.{Float}
use quant_stuff.Orders.Types.{ok, err, kill_switch_active, type_error, value_error, key_error}
use quant_stuff.Prelude.Dict.{contains}
use quant_stuff.Orders.Validate.{Value, as_str}
use quant_stuff.Action.{Action, Result-cases, ends}
use quant_stuff.KillSwitch.Types.{
  KillSwitch, KillSwitchState, armed_standby, panic_triggered, disarmed, KillSwitchEvent, Venue,
  verify_admin_token, filled_text, set_state, reset, disarm, arm, validate_submission,
}
use quant_stuff.KillSwitch.Registry.{
  or_raise, gateway_name, register_gateway, unregister_gateway, register_scheduler_hook,
  register_panic_listener,
}
use quant_stuff.KillSwitch.Panic.{Clock, PanicArgs, Alarm, alarm, respond, repeated, trigger_panic}

-- The calls of the methods that change something.
pub data Call (F W : Type 0) : Type 0 where
  panics : Clock → (KillSwitchState → KillSwitchState) → PanicArgs F → Call F W
  resets disarms arms : Value F → Call F W
  registers : Option (Venue F W) → Value F → Value F → Value F → String → Call F W
  unregisters : Value F → Call F W
  adds_hook : Option (Action W (Unit {0})) → Call F W
  adds_listener : Option (KillSwitchEvent F → Action W (Unit {0})) → Call F W

module _ {F W : Type 0} where
  -- a call of the switch leaves the world alone
  abbrev on_switch :
      {A : Type 0} → Action (KillSwitch F W) A → KillSwitch F W × W → KillSwitch F W × W
  on_switch m (k, w) = ((m k).1, w)

  -- no call for the administrator brings a token
  abbrev pub Foreign : String → Call F W → Type 0
  Foreign token (resets v) = as_str v ≢ ok token
  Foreign token (disarms v) = as_str v ≢ ok token
  Foreign token (arms v) = as_str v ≢ ok token
  Foreign token _ = Unit

  pub record Locked (token : String) (event : Option (KillSwitchEvent F)) (k : KillSwitch F W)
      : Type 0 where
    pub panicking : k.state ≡ panic_triggered
    pub guarded : k.admin_token ≡ token
    pub kept : k.last_event ≡ event

  verify-Foreign :
      (k : KillSwitch F W) (v : Value F)
      → as_str v ≢ ok k.admin_token
      → verify_admin_token k v ≡ false
  unfolding verify_admin_token
  verify-Foreign k v h = elim (Result-cases (as_str v)) [
    | inl (e, p) ↦ rw (p, verify_admin_token)
    | inr (s, p) ↦ elim (Bool-cases (str_eq s k.admin_token)) [
      | inl q ↦ absurd (h (p ∙ ap ok ((str_eq_iff s k.admin_token).0 q)))
      | inr q ↦ rw (p, verify_admin_token, q) (ground arith)
    ]
  ]

  -- a switch with the same state, token and event is locked as well
  abbrev Same : KillSwitch F W → KillSwitch F W → Type 0
  Same k k' =
      (k'.state ≡ k.state) × (k'.admin_token ≡ k.admin_token) × (k'.last_event ≡ k.last_event)

  module _ (token : String) (event : Option (KillSwitchEvent F)) where
    set_state-Locked :
        (state : KillSwitchState) (v : Value F) (k : KillSwitch F W)
        → as_str v ≢ ok token
        → Locked token event k
        → Locked token event (set_state state v k).1
    unfolding set_state
    set_state-Locked state v k h l = rw (verify-Foreign k v (rw l.guarded h)) l

    Same-Locked : (k k' : KillSwitch F W) → Same k k' → Locked token event k → Locked token event k'
    Same-Locked k k' (a, b, c) l = record {
      panicking = a ∙ l.panicking;
      guarded = b ∙ l.guarded;
      kept = c ∙ l.kept;
    }

  module _ (k : KillSwitch F W) where
    register_gateway-Same :
        (venue : Option (Venue F W)) (id own venue_id : Value F) (made_up : String)
        → Same k (register_gateway venue id own venue_id made_up k).1
    unfolding register_gateway
    register_gateway-Same venue id own venue_id made_up =
        ends (Same k) (or_raise venue (err type_error), k) _ (refl, refl, refl)
          λ v _.
            ends (Same k) (gateway_name id own venue_id made_up, k) _ (refl, refl, refl)
              λ gid _. (refl, refl, refl)

    unregister_gateway-Same : (id : Value F) → Same k (unregister_gateway id k).1
    unfolding unregister_gateway
    unregister_gateway-Same id =
        ends (Same k) (or_raise (filled_text id) (err value_error), k) _ (refl, refl, refl)
          λ s _.
            ends (Same k) (if contains (strip s) k.gateways then ok tt else err key_error, k) _
              (refl, refl, refl) λ _ _. (refl, refl, refl)

    register_scheduler_hook-Same :
        (hook : Option (Action W (Unit {0}))) → Same k (register_scheduler_hook hook k).1
    unfolding register_scheduler_hook
    register_scheduler_hook-Same none = (refl, refl, refl)
    register_scheduler_hook-Same (some h) = (refl, refl, refl)

    register_panic_listener-Same :
        (listener : Option (KillSwitchEvent F → Action W (Unit {0})))
        → Same k (register_panic_listener listener k).1
    unfolding register_panic_listener
    register_panic_listener-Same none = (refl, refl, refl)
    register_panic_listener-Same (some h) = (refl, refl, refl)

  module _ ⦃f : Float F⦄ where
    -- the switch and the world after a call, whether it raises or not
    pub after : Call F W → KillSwitch F W × W → KillSwitch F W × W
    after (panics clock during args) s = (trigger_panic clock during args s).1
    after (resets v) s = on_switch (reset v) s
    after (disarms v) s = on_switch (disarm v) s
    after (arms v) s = on_switch (arm v) s
    after (registers venue id own venue_id made_up) s =
        on_switch (register_gateway venue id own venue_id made_up) s
    after (unregisters v) s = on_switch (unregister_gateway v) s
    after (adds_hook h) s = on_switch (register_scheduler_hook h) s
    after (adds_listener l) s = on_switch (register_panic_listener l) s

    pub run : List (Call F W) → KillSwitch F W × W → KillSwitch F W × W
    run [] s = s
    run (c ∷ cs) s = run cs (after c s)

    repeated_leaves :
        (event : Option (KillSwitchEvent F)) (s : KillSwitch F W × W) → (repeated event s).1 ≡ s
    unfolding repeated
    repeated_leaves none s = refl
    repeated_leaves (some event) s = refl

    respond_leaves :
        (clock : Clock) (during : KillSwitchState → KillSwitchState) (a : Alarm)
        (state : KillSwitchState) (s : KillSwitch F W × W)
        → state ≡ panic_triggered
        → (respond clock during a state s).1 ≡ s
    unfolding respond
    respond_leaves clock during a armed_standby s h = cc
    respond_leaves clock during a panic_triggered s h = repeated_leaves s.0.last_event s
    respond_leaves clock during a disarmed s h = cc

    trigger_panic_leaves :
        (clock : Clock) (during : KillSwitchState → KillSwitchState) (args : PanicArgs F)
        (s : KillSwitch F W × W)
        → s.0.state ≡ panic_triggered
        → (trigger_panic clock during args s).1 ≡ s
    unfolding trigger_panic
    trigger_panic_leaves clock during args s h = elim (Result-cases (alarm clock args)) [
      | inl (e, p) ↦ rw p
      | inr (a, p) ↦ rw p (respond_leaves clock during a s.0.state s h)
    ]

    module _ (token : String) (event : Option (KillSwitchEvent F)) where
      abbrev AfterLocked : KillSwitch F W × W → KillSwitch F W × W → Type 0
      AfterLocked s t = Locked token event t.0 × (t.1 ≡ s.1)

      after-Locked :
          (c : Call F W) (s : KillSwitch F W × W)
          → Foreign token c
          → Locked token event s.0
          → AfterLocked s (after c s)
      unfolding after reset disarm arm
      after-Locked (panics clock during args) s h l =
          rw (trigger_panic_leaves clock during args s l.panicking) (l, refl)
      after-Locked (resets v) s h l = (set_state-Locked token event _ v s.0 h l, refl)
      after-Locked (disarms v) s h l = (set_state-Locked token event _ v s.0 h l, refl)
      after-Locked (arms v) s h l = (set_state-Locked token event _ v s.0 h l, refl)
      after-Locked (registers venue id own venue_id made_up) s h l = (
        Same-Locked token event s.0 _ (register_gateway-Same s.0 venue id own venue_id made_up) l,
        refl,
      )
      after-Locked (unregisters v) s h l =
          (Same-Locked token event s.0 _ (unregister_gateway-Same s.0 v) l, refl)
      after-Locked (adds_hook k) s h l =
          (Same-Locked token event s.0 _ (register_scheduler_hook-Same s.0 k) l, refl)
      after-Locked (adds_listener k) s h l =
          (Same-Locked token event s.0 _ (register_panic_listener-Same s.0 k) l, refl)

      run-Locked :
          (cs : List (Call F W)) (s : KillSwitch F W × W)
          → All (Foreign token) cs
          → Locked token event s.0
          → AfterLocked s (run cs s)
      unfolding run
      run-Locked [] s h l = (l, refl)
      run-Locked (c ∷ cs) s h l =
          let (l1, e1) = after-Locked c s (h.0) l in
          let (l2, e2) = run-Locked cs (after c s) (h.1) l1 in (l2, e2 ∙ e1)

    -- From a panic on, whatever calls are made of which none brings the administrator's token to reset,
    -- arm or disarm, submissions are refused as the kill switch is active, the event that is kept is the one
    -- of the panic, and no call of the switch touches a gateway, a hook or a listener again.
    pub run-lockout :
        (cs : List (Call F W)) (k : KillSwitch F W) (w : W)
        → k.state ≡ panic_triggered
        → All (Foreign k.admin_token) cs
        → (validate_submission (run cs (k, w)).0 ≡ err kill_switch_active)
          × ((run cs (k, w)).0.last_event ≡ k.last_event)
          × ((run cs (k, w)).1 ≡ w)
    unfolding validate_submission
    run-lockout cs k w p h =
        let start : Locked k.admin_token k.last_event k = record {
          panicking = p;
          guarded = refl;
          kept = refl;
        } in
        let (l, e) = run-Locked k.admin_token k.last_event cs (k, w) h start in
        (rw l.panicking, l.kept, e)
