-- ===== src/Fsm/Tests.antt =====
-- The order state machine at concrete values.
use quant_stuff.Prelude.{◌≡◌, ◌≢◌, ◌↔◌, refl, false, [], ◌∷◌, pos}
use quant_stuff.Float.{Fixed, decimal, fixed_float}
use quant_stuff.Orders.Types.{
  Order, ExecutionReport, pending_new, new, filled, cancelled, rejected, terminal, ok,
  invalid_state_transition, invalid_order_input,
}
use quant_stuff.Orders.Tests.{limit_buy, full_fill}
use quant_stuff.Fsm.{
  can_transition, apply_execution_report, transition, dispatch, move, Stamp, Report,
}
use quant_stuff.Fsm.Graph.{Reach, can_transition_sound}
use quant_stuff.Fsm.Reports.{
  IsAccepted, apply_execution_report_iff, apply_execution_report_atomic,
  apply_execution_report_books, Within, run, run-Within, run_terminal, run-Reach,
}
use quant_stuff.Fsm.Transitions.{transition_by_time, transition_atomic}

can_transition_sound_example :
    (terminal pending_new ≡ false)
    × (rejected ≢ pending_new)
    × (rejected ≡ rejected → pending_new ≡ pending_new)
unfolding can_transition
can_transition_sound_example = can_transition_sound pending_new rejected refl

full_fill-IsAccepted : IsAccepted limit_buy full_fill
unfolding can_transition
full_fill-IsAccepted = record {
  same_id = refl;
  open_order = refl;
  within = refl;
  no_regress = refl;
  allowed = refl;
}

apply_execution_report_iff_example :
    ((apply_execution_report limit_buy full_fill).0 ≡ ok tt) ↔ IsAccepted limit_buy full_fill
apply_execution_report_iff_example = apply_execution_report_iff limit_buy full_fill

filled_state : (apply_execution_report limit_buy full_fill).1.state ≡ filled
filled_state = (apply_execution_report_books limit_buy full_fill full_fill-IsAccepted).0

abbrev other_order : Order Fixed
other_order = record limit_buy { cl_ord_id = "cl-2" }

apply_execution_report_atomic_example :
    (apply_execution_report other_order full_fill).1 ≡ other_order
unfolding apply_execution_report
apply_execution_report_atomic_example =
    apply_execution_report_atomic other_order full_fill invalid_order_input refl

abbrev too_much : ExecutionReport Fixed
too_much = record full_fill { cum_quantity = decimal 11 0 }

run-Within_example : Within (run (too_much ∷ full_fill ∷ []) limit_buy)
run-Within_example = run-Within (too_much ∷ full_fill ∷ []) limit_buy refl

abbrev done : Order Fixed
done = record limit_buy { state = cancelled }

run_terminal_example : run (full_fill ∷ too_much ∷ []) done ≡ done
run_terminal_example = run_terminal (full_fill ∷ too_much ∷ []) done refl

run-Reach_example : Reach pending_new (run (too_much ∷ full_fill ∷ []) limit_buy).state
run-Reach_example = run-Reach (too_much ∷ full_fill ∷ []) limit_buy

transition_atomic_example : (transition 5 done new (Stamp.time (pos 3)) Report.unset).1 ≡ done
unfolding transition dispatch move
transition_atomic_example =
    transition_atomic 5 done new (Stamp.time (pos 3)) Report.unset invalid_state_transition refl

transition_by_time_example :
    transition 5 limit_buy new (Stamp.time (pos 3)) Report.unset
    ≡ (ok tt, record limit_buy { state = new; updated_at_ns = 3 })
unfolding can_transition
transition_by_time_example = transition_by_time 5 limit_buy new 3
