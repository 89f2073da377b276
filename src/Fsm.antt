-- ===== src/Fsm.antt =====
-- src/quant/execution/fsm.py: OrderStateMachine. The methods mutate the order that they are given, so
-- each returns it beside the result, also when it raises. An argument that is annotated with a class is of that class; the checks of
-- `timestamp_ns` and `report` are modelled over any argument.
pub mod Graph
pub mod Reports
pub mod Transitions
mod Tests
use quant_stuff.Prelude.{
  ℕ, List, [], ◌∷◌, Bool, true, false, not, ◌&&◌, ◌||◌, Option, none, some, String, ℤ,
  if◌then◌else◌, is_empty, str_eq, nonneg?,
}
use quant_stuff.Float.{Float, lt}
use quant_stuff.Orders.Types.{
  Order, ExecutionReport, OrderState, pending_new, new, partially_filled, filled, pending_cancel,
  cancelled, rejected, expired, same_state, is_terminal, Result, ok, err, invalid_state_transition,
  invalid_order_input,
}

-- the values of `_VALID_TRANSITIONS`, which are sets
abbrev pub permitted : OrderState → List OrderState
permitted pending_new = new ∷ partially_filled ∷ filled ∷ rejected ∷ expired ∷ []
permitted new = partially_filled ∷ filled ∷ pending_cancel ∷ cancelled ∷ expired ∷ []
permitted partially_filled = partially_filled ∷ filled ∷ pending_cancel ∷ cancelled ∷ expired ∷ []
permitted pending_cancel = cancelled ∷ filled ∷ partially_filled ∷ []
permitted _ = []

-- `state in states`
abbrev pub among : OrderState → List OrderState → Bool
among a [] = false
among a (b ∷ bs) = same_state b a || among a bs

unfoldable pub can_transition : OrderState → OrderState → Bool
can_transition current next = among next (permitted current)

-- `next in (PARTIALLY_FILLED, FILLED)`
abbrev pub is_fill : OrderState → Bool
is_fill partially_filled = true
is_fill filled = true
is_fill _ = false

abbrev pub is_pending_new : OrderState → Bool
is_pending_new pending_new = true
is_pending_new _ = false

-- the argument `timestamp_ns` of `transition`, and its keyword `report`
pub data Stamp (F : Type 0) : Type 0 where
  absent : Stamp F
  time : ℤ → Stamp F
  by_report : ExecutionReport F → Stamp F
  other : Stamp F

pub data Report (F : Type 0) : Type 0 where
  unset : Report F
  given : ExecutionReport F → Report F
  other : Report F

module _ {F : Type 0} where
  -- `if report.exchange_order_id: order.exchange_order_id = report.exchange_order_id`
  abbrev pub adopt_id : ExecutionReport F → Order F → Order F
  adopt_id r o = record o {
    exchange_order_id =
        if is_empty r.exchange_order_id then o.exchange_order_id else some r.exchange_order_id;
  }

  abbrev pub enter : OrderState → ℕ → Order F → Order F
  enter s t o = record o { state = s; updated_at_ns = t }

  module _ ⦃f : Float F⦄ where
    -- 5. the intermediate NEW for a fill that overtakes the acknowledgment
    abbrev pub reconcile : ExecutionReport F → Order F → Order F
    reconcile r o =
        if is_pending_new o.state && is_fill r.exec_type
        then adopt_id r (enter new r.timestamp_ns o)
        else o

    -- 7. the mutations
    abbrev pub book : ExecutionReport F → Order F → Order F
    book r o = enter r.exec_type r.timestamp_ns (
        adopt_id r (record o {
          filled_quantity = r.cum_quantity;
          filled_quote_amount = r.cum_quote_amount;
          average_price = r.average_price;
          fees_paid = f.add o.fees_paid r.fee;
        }))

    -- 1e-7
    abbrev pub tolerance : F
    tolerance = f.lit 1 7

    unfoldable pub apply_execution_report :
        Order F → ExecutionReport F → Result (Unit {0}) × Order F
    apply_execution_report o r =
        if not (str_eq o.cl_ord_id r.cl_ord_id)
        then (err invalid_order_input, o)
        else if is_terminal o
        then (err invalid_state_transition, o)
        else if lt (f.add o.quantity tolerance) r.cum_quantity
        then (err invalid_order_input, o)
        else if lt r.cum_quantity (f.sub o.filled_quantity tolerance)
        then (err invalid_order_input, o)
        else let o' = reconcile r o in
          if can_transition o'.state r.exec_type
          then (ok tt, book r o')
          else (err invalid_state_transition, o')

    -- 2. the report, if there is one, and the time; `now` is `time.time_ns()`
    abbrev pub resolve : ℕ → Stamp F → Report F → Result (Option (ExecutionReport F) × ℕ)
    resolve now (by_report r) k = ok (some r, r.timestamp_ns)
    resolve now stamp (given r) = ok (some r, r.timestamp_ns)
    resolve now stamp Report.other = err invalid_order_input
    resolve now absent unset = ok (none, now)
    resolve now (time n) unset = elim (nonneg? n) [
      | none ↦ err invalid_order_input
      | some t ↦ ok (none, t)
    ]
    resolve now Stamp.other unset = err invalid_order_input

    -- 4. to 7.
    unfoldable pub move : Order F → OrderState → ℕ → Result (Unit {0}) × Order F
    move o next t =
        if is_terminal o
        then (err invalid_state_transition, o)
        else let o' = if is_pending_new o.state && is_fill next then enter new t o else o in
          if can_transition o'.state next
          then (ok tt, enter next t o')
          else (err invalid_state_transition, o')

    -- 3. a report is booked, and a bare time moves the state
    unfoldable pub dispatch :
        Order F → OrderState → Result (Option (ExecutionReport F) × ℕ) → Result (Unit {0}) × Order F
    dispatch o next (err e) = (err e, o)
    dispatch o next (ok (none, t)) = move o next t
    dispatch o next (ok (some r, t)) =
        if same_state r.exec_type next
        then apply_execution_report o r
        else (err invalid_state_transition, o)

    unfoldable pub transition :
        ℕ → Order F → OrderState → Stamp F → Report F → Result (Unit {0}) × Order F
    transition now o next stamp k = dispatch o next (resolve now stamp k)
