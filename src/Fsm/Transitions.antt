-- ===== src/Fsm/Transitions.antt =====
-- What `transition` of src/quant/execution/fsm.py does on every branch.
use quant_stuff.Prelude.{ℕ, ◌≡◌, refl, pos, Option, none, some, if◌then◌else◌, arith}
use quant_stuff.Float.{Float}
use quant_stuff.Orders.Types.{
  Order, ExecutionReport, OrderState, Result, ok, err, Error, invalid_state_transition,
}
use quant_stuff.Fsm.{
  apply_execution_report, transition, dispatch, resolve, move, can_transition, enter, Stamp, Report,
}
use quant_stuff.Fsm.Reports.{apply_execution_report_atomic}

module _ {F : Type 0} ⦃f : Float F⦄ where
  move-eq :
      (o : Order F) (next : OrderState) (t : ℕ)
      → move o next t ≡ (
          if can_transition o.state next
          then (ok tt, enter next t o)
          else (err invalid_state_transition, o))
  unfolding move can_transition
  move-eq o next t = ground arith

  -- Without a report, `transition` sets the state and the time if the graph has the transition, and
  -- else raises and changes nothing: the terminal lockout and the intermediate NEW make no difference.
  pub transition_by_time :
      (now : ℕ) (o : Order F) (next : OrderState) (t : ℕ)
      → transition now o next (Stamp.time (pos t)) Report.unset ≡ (
          if can_transition o.state next
          then (ok tt, enter next t o)
          else (err invalid_state_transition, o))
  unfolding transition dispatch
  transition_by_time now o next t = move-eq o next t

  move_atomic :
      (o : Order F) (next : OrderState) (t : ℕ) (e : Error)
      → (move o next t).0 ≡ err e
      → (move o next t).1 ≡ o
  move_atomic o next t e h = ground (arith, move-eq o next t)

  dispatch_atomic :
      (o : Order F) (next : OrderState) (x : Result (Option (ExecutionReport F) × ℕ)) (e : Error)
      → (dispatch o next x).0 ≡ err e
      → (dispatch o next x).1 ≡ o
  unfolding dispatch
  dispatch_atomic o next (err _) e h = refl
  dispatch_atomic o next (ok (none, t)) e h = move_atomic o next t e h
  dispatch_atomic o next (ok (some r, t)) e h = ground (arith, apply_execution_report_atomic o r e)

  -- However the time and the report are passed, a `transition` that raises leaves the order as it was.
  pub transition_atomic :
      (now : ℕ) (o : Order F) (next : OrderState) (stamp : Stamp F) (k : Report F) (e : Error)
      → (transition now o next stamp k).0 ≡ err e
      → (transition now o next stamp k).1 ≡ o
  unfolding transition
  transition_atomic now o next stamp k e h = dispatch_atomic o next (resolve now stamp k) e h

  -- A report that comes as `timestamp_ns` or as `report` is booked, if it is for the state asked for.
  pub transition_by_report :
      (now : ℕ) (o : Order F) (next : OrderState) (t : ℕ) (r : ExecutionReport F)
      → (transition now o next (Stamp.by_report r) Report.unset
          ≡ transition now o next (Stamp.time (pos t)) (Report.given r))
        × (transition now o r.exec_type (Stamp.by_report r) Report.unset
            ≡ apply_execution_report o r)
  unfolding transition dispatch
  transition_by_report now o next t r = (refl, ground arith)
