-- ===== src/Fsm/Graph.antt =====
-- INV-GW-001: the graph of `_VALID_TRANSITIONS` in src/quant/execution/fsm.py, and the paths in it.
use quant_stuff.Prelude.{◌≡◌, ◌≢◌, refl, true, false, arith}
use quant_stuff.Orders.Types.{
  OrderState, pending_new, new, partially_filled, filled, pending_cancel, cancelled, rejected,
  expired, terminal, active,
}
use quant_stuff.Fsm.{can_transition}

-- the paths of allowed transitions
pub data Reach (s : OrderState) : OrderState → Type 0 where
  here : Reach s s
  next : {t u : OrderState} → Reach s t → can_transition t u ≡ true → Reach s u

pub Reach-trans : (s t : OrderState) {u : OrderState} → Reach s t → Reach t u → Reach s u
Reach-trans s t r here = r
Reach-trans s t r (next {t = m} q e) = next (Reach-trans s t r q) e

-- A transition leaves a state that is not terminal, never leads back to PENDING_NEW, and leads to
-- REJECTED from PENDING_NEW only.
pub can_transition_sound :
    (s t : OrderState)
    → can_transition s t ≡ true
    → (terminal s ≡ false) × (t ≢ pending_new) × (t ≡ rejected → s ≡ pending_new)
unfolding can_transition
can_transition_sound s t h = ground arith

-- From a terminal state, no other state is reached.
Reach-terminal : (s t : OrderState) → terminal s ≡ true → Reach s t → t ≡ s
Reach-terminal s t h here = refl
Reach-terminal s t h (next {t = m} r e) =
    ground (arith, Reach-terminal s m h r, can_transition_sound m t e)

abbrev InFlight : OrderState → Type 0
InFlight s = (s ≢ pending_new) × (s ≢ rejected)

step-InFlight : (s t : OrderState) → can_transition s t ≡ true → s ≢ pending_new → InFlight t
step-InFlight s t h n = let p = can_transition_sound s t h in (p.1, λ e. n (p.2 e))

-- An order that has left PENDING_NEW other than by rejection is never PENDING_NEW or REJECTED again.
Reach-InFlight : (s t : OrderState) → InFlight s → Reach s t → InFlight t
Reach-InFlight s t h here = h
Reach-InFlight s t h (next {t = m} r e) = step-InFlight m t e (Reach-InFlight s m h r).0

-- Every active state can end: it reaches EXPIRED or CANCELLED.
active_can_end :
    (s : OrderState) → active s ≡ true → (t : OrderState) × (terminal t ≡ true) × Reach s t
unfolding can_transition
active_can_end pending_new h = (expired, refl, next here refl)
active_can_end new h = (cancelled, refl, next here refl)
active_can_end partially_filled h = (cancelled, refl, next here refl)
active_can_end pending_cancel h = (cancelled, refl, next here refl)
active_can_end filled h = cc
active_can_end cancelled h = cc
active_can_end rejected h = cc
active_can_end expired h = cc

-- The graph has a cycle through two states.
pub cycle : Reach pending_cancel pending_cancel
unfolding can_transition
cycle = next {t = partially_filled} (next here refl) refl
