-- ===== src/Fsm/Reports.antt =====
-- What `apply_execution_report` and `transition` of src/quant/execution/fsm.py do on every branch.
use quant_stuff.Prelude.{◌≡◌, ◌↔◌, refl, true, false, str_eq_iff, List, [], ◌∷◌, arith}
use quant_stuff.Float.{Float, lt}
use quant_stuff.Orders.Types.{Order, ExecutionReport, is_terminal, Result, ok, err, Error}
use quant_stuff.Fsm.Graph.{Reach, here, next as step, Reach-trans}
use quant_stuff.Fsm.{apply_execution_report, can_transition, tolerance}

module _ {F : Type 0} ⦃f : Float F⦄ where
  -- The conditions under which a report is booked.
  pub record IsAccepted (o : Order F) (r : ExecutionReport F) : Type 0 where
    pub same_id : o.cl_ord_id ≡ r.cl_ord_id
    pub open_order : is_terminal o ≡ false
    pub within : lt (f.add o.quantity tolerance) r.cum_quantity ≡ false
    pub no_regress : lt r.cum_quantity (f.sub o.filled_quantity tolerance) ≡ false
    pub allowed : can_transition o.state r.exec_type ≡ true

  -- A report is booked exactly when it names the order, the order is open, the filled quantity is
  -- within the target and does not regress beyond the tolerance, and the graph has the transition.
  pub apply_execution_report_iff :
      (o : Order F) (r : ExecutionReport F)
      → ((apply_execution_report o r).0 ≡ ok tt) ↔ IsAccepted o r
  unfolding apply_execution_report can_transition
  apply_execution_report_iff o r = (
    λ h. ground (arith, str_eq_iff o.cl_ord_id r.cl_ord_id),
    λ h. ground (arith, str_eq_iff o.cl_ord_id r.cl_ord_id),
  )

  -- A report that is refused leaves the order as it was, though NEW is written before the last test.
  pub apply_execution_report_atomic :
      (o : Order F) (r : ExecutionReport F) (e : Error)
      → (apply_execution_report o r).0 ≡ err e
      → (apply_execution_report o r).1 ≡ o
  unfolding apply_execution_report can_transition
  apply_execution_report_atomic o r e h = ground arith

  -- A booked report sets the state, the filled amounts and the time, adds its fee to the fees, and
  -- leaves what identifies the order and its target alone.
  pub apply_execution_report_books :
      (o : Order F) (r : ExecutionReport F)
      → IsAccepted o r
      → let o' = (apply_execution_report o r).1 in
        (o'.state ≡ r.exec_type)
        × (o'.filled_quantity ≡ r.cum_quantity)
        × (o'.filled_quote_amount ≡ r.cum_quote_amount)
        × (o'.average_price ≡ r.average_price)
        × (o'.fees_paid ≡ f.add o.fees_paid r.fee)
        × (o'.updated_at_ns ≡ r.timestamp_ns)
        × (o'.cl_ord_id ≡ o.cl_ord_id)
        × (o'.quantity ≡ o.quantity)
        × (o'.side ≡ o.side)
        × (o'.price ≡ o.price)
  unfolding apply_execution_report can_transition
  apply_execution_report_books o r h = ground (arith, str_eq_iff o.cl_ord_id r.cl_ord_id)

  -- INV-GW-003: the filled quantity stays within the target and the tolerance.
  abbrev pub Within : Order F → Type 0
  Within o = lt (f.add o.quantity tolerance) o.filled_quantity ≡ false

  -- Any report, booked or refused, keeps the filled quantity within the target and the tolerance.
  pub apply_execution_report-Within :
      (o : Order F) (r : ExecutionReport F) → Within o → Within (apply_execution_report o r).1
  unfolding apply_execution_report can_transition
  apply_execution_report-Within o r h = ground arith

  -- the reports that arrive for an order, in their order of arrival
  abbrev pub run : List (ExecutionReport F) → Order F → Order F
  run [] o = o
  run (r ∷ rs) o = run rs (apply_execution_report o r).1

  -- Whatever reports arrive, in whatever order, the filled quantity stays within the target and the
  -- tolerance.
  pub run-Within : (rs : List (ExecutionReport F)) (o : Order F) → Within o → Within (run rs o)
  run-Within [] o h = h
  run-Within (r ∷ rs) o h = run-Within rs _ (apply_execution_report-Within o r h)

  -- A terminal order is refused every report and stays as it is.
  pub apply_execution_report_locked :
      (o : Order F) (r : ExecutionReport F)
      → is_terminal o ≡ true
      → (apply_execution_report o r).1 ≡ o
  unfolding apply_execution_report
  apply_execution_report_locked o r h = ground arith

  -- INV-GW-001: an order that is terminal is not changed by any sequence of reports.
  pub run_terminal :
      (rs : List (ExecutionReport F)) (o : Order F) → is_terminal o ≡ true → run rs o ≡ o
  run_terminal [] o h = refl
  run_terminal (r ∷ rs) o h = rw (apply_execution_report_locked o r h) (run_terminal rs o h)

  step_path :
      (o : Order F) (r : ExecutionReport F) (res : Result (Unit {0}))
      → (apply_execution_report o r).0 ≡ res
      → Reach o.state (apply_execution_report o r).1.state
  step_path o r (ok _) h =
      let a = (apply_execution_report_iff o r).0 h in
      rw ((apply_execution_report_books o r a).0) (step here a.allowed)
  step_path o r (err e) h = rw (apply_execution_report_atomic o r e h) here

  -- The states of an order along any sequence of reports form a path of the graph.
  pub run-Reach : (rs : List (ExecutionReport F)) (o : Order F) → Reach o.state (run rs o).state
  run-Reach [] o = here
  run-Reach (r ∷ rs) o =
      let o' = (apply_execution_report o r).1 in
      Reach-trans o.state o'.state (step_path o r _ refl) (run-Reach rs o')
