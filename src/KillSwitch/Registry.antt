-- ===== src/KillSwitch/Registry.antt =====
-- The registries of EmergencyKillSwitch in src/quant/execution/kill_switch.py. `none` is an argument that
-- is no gateway, or cannot be called.
use quant_stuff.Prelude.{Option, none, some, String, [], ◌∷◌, ◌++◌, strip, if◌then◌else◌}
use quant_stuff.Prelude.Dict.{contains, insert, erase}
use quant_stuff.Orders.Types.{Result, ok, err, type_error, value_error, key_error}
use quant_stuff.Orders.Validate.{Value}
use quant_stuff.Action.{Action, check, get, modify, pure, ◌>>=◌, ◌>>◌}
use quant_stuff.KillSwitch.Types.{KillSwitch, KillSwitchEvent, Venue, filled_text}

abbrev pub or_raise : {A : Type 0} → Option A → Result A → Result A
or_raise none r = r
or_raise (some a) r = ok a

-- the identifier: the one that is passed, else one of the gateway's own, else one that is made up
unfoldable pub gateway_name : {F : Type 0} → Value F → Value F → Value F → String → Result String
gateway_name Value.null own_id venue_id made_up = elim (filled_text own_id) [
  | some s ↦ ok (strip s)
  | none ↦ elim (filled_text venue_id) [ some s ↦ ok (strip s) | none ↦ ok made_up ]
]
gateway_name given own_id venue_id made_up = elim (filled_text given) [
  | some s ↦ ok (strip s)
  | none ↦ err value_error
]

module _ {F W : Type 0} where
  -- `own_id` and `venue_id` are attributes of the gateway, null if it has none.
  unfoldable pub register_gateway :
      Option (Venue F W) → Value F → Value F → Value F → String → Action (KillSwitch F W) String
  register_gateway gateway gateway_id own_id venue_id made_up = do
    venue ← check (or_raise gateway (err type_error))
    gid ← check (gateway_name gateway_id own_id venue_id made_up)
    modify λ k. record k { gateways = insert gid venue k.gateways }
    pure gid

  unfoldable pub unregister_gateway : Value F → Action (KillSwitch F W) (Unit {0})
  unregister_gateway gateway_id = do
    id ← check (or_raise (filled_text gateway_id) (err value_error))
    k ← get
    check (if contains (strip id) k.gateways then ok tt else err key_error)
    modify λ k. record k { gateways = erase (strip id) k.gateways }

  unfoldable pub register_scheduler_hook :
      Option (Action W (Unit {0})) → Action (KillSwitch F W) (Unit {0})
  register_scheduler_hook hook = do
    h ← check (or_raise hook (err type_error))
    modify λ k. record k { scheduler_hooks = k.scheduler_hooks ++ (h ∷ []) }

  unfoldable pub register_panic_listener :
      Option (KillSwitchEvent F → Action W (Unit {0})) → Action (KillSwitch F W) (Unit {0})
  register_panic_listener listener = do
    l ← check (or_raise listener (err type_error))
    modify λ k. record k { panic_listeners = k.panic_listeners ++ (l ∷ []) }
