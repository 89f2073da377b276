-- ===== src/Heartbeat/Listeners.antt =====
-- The listeners of HeartbeatWatchdog in src/quant/execution/heartbeat.py. A listener that is told acts on
-- the world and may raise; it does not call the watchdog back.
use quant_stuff.Prelude.{
  ℕ, ◌==◌, Bool, false, ◌||◌, Option, none, some, List, [], ◌∷◌, ◌++◌, if◌then◌else◌,
}
use quant_stuff.Orders.Types.{Result, ok, err, type_error}
use quant_stuff.Action.{Action, check, modify, ◌>>=◌, ◌>>◌}
use quant_stuff.Heartbeat.Types.{Listener, StatusChange, SequenceGap, Disconnection, Watchdog}

-- tells each listener in turn, until one raises
unfoldable pub notify : {A W : Type 0} → List (Listener A W) → A → Action W (Unit {0})
notify [] a w = (ok tt, w)
notify (l ∷ ls) a w = (l.call a >> notify ls a) w

-- what is done to the world alone
abbrev pub outside : {S W A : Type 0} → Action W A → Action (S × W) A
outside m (s, w) = let r = m w in (r.0, (s, r.1))

-- `callback in listeners`
unfoldable pub is_registered : {A W : Type 0} → ℕ → List (Listener A W) → Bool
is_registered i [] = false
is_registered i (l ∷ ls) = let rest = is_registered i ls in l.identity == i || rest

-- `listeners.append(callback)` unless it is there
unfoldable pub add_listener :
    {A W : Type 0} → Listener A W → List (Listener A W) → List (Listener A W)
unfolding is_registered
add_listener l ls = if is_registered l.identity ls then ls else ls ++ (l ∷ [])

-- `listeners.remove(callback)` if it is there
unfoldable pub remove_listener : {A W : Type 0} → ℕ → List (Listener A W) → List (Listener A W)
remove_listener i [] = []
remove_listener i (l ∷ ls) =
    let rest = remove_listener i ls in if l.identity == i then ls else l ∷ rest

-- a callback that cannot be called is `none`
abbrev callable : {A : Type 0} → Option A → Result A
callable none = err type_error
callable (some a) = ok a

module _ {F W : Type 0} where
  unfoldable pub register_status_listener :
      Option (Listener StatusChange W) → Action (Watchdog F W) (Unit {0})
  register_status_listener callback = do
    l ← check (callable callback)
    modify λ k. record k { status_listeners = add_listener l k.status_listeners }

  unfoldable pub unregister_status_listener : ℕ → Action (Watchdog F W) (Unit {0})
  unregister_status_listener i =
      modify λ k. record k { status_listeners = remove_listener i k.status_listeners }

  unfoldable pub register_sequence_gap_listener :
      Option (Listener SequenceGap W) → Action (Watchdog F W) (Unit {0})
  register_sequence_gap_listener callback = do
    l ← check (callable callback)
    modify λ k. record k { sequence_gap_listeners = add_listener l k.sequence_gap_listeners }

  unfoldable pub unregister_sequence_gap_listener : ℕ → Action (Watchdog F W) (Unit {0})
  unregister_sequence_gap_listener i =
      modify λ k. record k { sequence_gap_listeners = remove_listener i k.sequence_gap_listeners }

  unfoldable pub register_disconnect_listener :
      Option (Listener (Disconnection F) W) → Action (Watchdog F W) (Unit {0})
  register_disconnect_listener callback = do
    l ← check (callable callback)
    modify λ k. record k { disconnect_listeners = add_listener l k.disconnect_listeners }

  unfoldable pub unregister_disconnect_listener : ℕ → Action (Watchdog F W) (Unit {0})
  unregister_disconnect_listener i =
      modify λ k. record k { disconnect_listeners = remove_listener i k.disconnect_listeners }
