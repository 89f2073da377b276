-- ===== src/Parent/Session.antt =====
-- The life of a ParentOrder in src/quant/execution/parent_order.py: any calls of record_child_fill.
use mathlib.Core.Path.{subst}
use quant_stuff.Prelude.{
  ◌≡◌, ◌≢◌, refl, inl, inr, true, false, ◌&&◌, List, [], ◌∷◌, ltb, arith, Bool-cases,
}
use quant_stuff.Float.{Float, IsOrdered, lt, nought, ◌≼◌, IsPositive}
use quant_stuff.Float.Order.{nonneg_of_positive}
use quant_stuff.Orders.Types.{Error, ok, err, bind_ok, ok_injective, algorithm_timeout}
use quant_stuff.Orders.Validate.{Value}
use quant_stuff.Action.{Result-cases}
use quant_stuff.Parent.Fills.{
  ChildFillRecord, FillArgs, ParentArgs, ParentOrder, positive_sor_scalar, sor_time, sor_text,
  mass_tolerance, new_child_fill, new_parent, with_fill, record_child_fill, parent_leaves,
  is_completed, check_timeout, sor_side, decision_or,
}
use quant_stuff.Parent.Books.{
  tally, SoundFill, IsBooked, with_fill-IsBooked, new_child_fill-SoundFill,
  positive_sor_scalar-IsPositive,
}

module _ {F : Type 0} ⦃f : Float F⦄ where
  -- the order after calls of `record_child_fill`, those that raise included
  unfoldable pub recorded : List (FillArgs F) → ParentOrder F → ParentOrder F
  recorded [] p = p
  recorded (a ∷ rest) p = recorded rest (record_child_fill a p).1

  module _ (laws : IsOrdered F) where
    -- How `record_child_fill` ends: as it began, or with a fill that is within the target and in time.
    record_child_fill-ends :
        (P : ParentOrder F → Type 0) (a : FillArgs F) (p : ParentOrder F)
        → P p
        → ((c : ChildFillRecord F)
            → SoundFill p.start_time_ns c
            → lt (f.add p.total_quantity mass_tolerance) (f.add p.filled_quantity c.quantity)
              ≡ false
            → P (with_fill c p))
        → P (record_child_fill a p).1
    unfolding record_child_fill
    record_child_fill-ends P a p start k = elim (Result-cases (new_child_fill a)) [
      | inl (e, q) ↦ rw (record_child_fill, q) start
      | inr (c, q) ↦
          rw (record_child_fill, q)
            (elim (Bool-cases
              (lt (f.add p.total_quantity mass_tolerance) (f.add p.filled_quantity c.quantity))) [
                | inl m ↦ rw m start
                | inr m ↦
                    elim (Bool-cases (ltb 0 c.timestamp_ns && ltb c.timestamp_ns p.start_time_ns)) [
                      | inl t ↦ rw (m, t) start
                      | inr t ↦
                          rw (m, t) (k c (new_child_fill-SoundFill laws a c p.start_time_ns q t) m)
                    ]
              ])
    ]

    recorded-IsBooked :
        (calls : List (FillArgs F)) (p : ParentOrder F) → IsBooked p → IsBooked (recorded calls p)
    unfolding recorded
    recorded-IsBooked [] p b = b
    recorded-IsBooked (a ∷ rest) p b =
        recorded-IsBooked rest (record_child_fill a p).1
          (record_child_fill-ends IsBooked a p b λ c s m. with_fill-IsBooked laws c p b s m)

    not_above : (q : F) → IsPositive q → lt (f.add q mass_tolerance) nought ≡ false
    not_above q h =
        let low =
          laws.add_nonneg q mass_tolerance (nonneg_of_positive laws q h).1
            (laws.nought-le-lit 1 7) in
        ground arith

    new_parent-IsBooked : (a : ParentArgs F) (p : ParentOrder F) → new_parent a ≡ ok p → IsBooked p
    unfolding new_parent tally
    new_parent-IsBooked a p h =
        let (i, _, h1) = bind_ok (sor_text a.parent_id) _ h in
        let (s, _, h2) = bind_ok (sor_text a.symbol) _ h1 in
        let (d, _, h3) = bind_ok (sor_side a.side) _ h2 in
        let (q, eq, h4) = bind_ok (positive_sor_scalar a.total_quantity) _ h3 in
        let (x, _, h5) = bind_ok (positive_sor_scalar a.arrival_price) _ h4 in
        let (y, _, h6) = bind_ok (decision_or x a.decision_price) _ h5 in
        let (z, _, h7) = bind_ok (positive_sor_scalar a.max_duration_seconds) _ h6 in
        let (t, _, h8) = bind_ok (sor_time a.start_time_ns) _ h7 in
        subst IsBooked (ok_injective h8) (record {
          total_positive = positive_sor_scalar-IsPositive laws _ q eq;
          filled_sum = refl;
          notional_sum = refl;
          fee_sum = refl;
          slippage_sum = refl;
          filled_nonneg = laws.nought-le-lit 0 0;
          within_target = not_above q (positive_sor_scalar-IsPositive laws _ q eq);
          fills_sound = tt;
        })

    -- However the calls of `record_child_fill` end on an order that the constructor returned, its filled
    -- quantity, notional, fees and slippage are the sums over the fills that it holds, in the order in
    -- which they came, the filled quantity is not above the total quantity and the tolerance, and every
    -- fill is positive, with a price and a fee in bounds and a time that is nought or not before the start.
    pub recorded-Books :
        (a : ParentArgs F) (p : ParentOrder F) (calls : List (FillArgs F))
        → new_parent a ≡ ok p
        → IsBooked (recorded calls p)
    recorded-Books a p calls h = recorded-IsBooked calls p (new_parent-IsBooked a p h)

    completed_le :
        (p : ParentOrder F)
        → is_completed p ≡ true
        → f.sub p.total_quantity p.filled_quantity ≼ mass_tolerance
    unfolding is_completed parent_leaves
    completed_le p h = ground arith

    is_completed-of_le :
        (p : ParentOrder F)
        → f.sub p.total_quantity p.filled_quantity ≼ mass_tolerance
        → is_completed p ≡ true
    unfolding is_completed parent_leaves
    is_completed-of_le p h = rw (is_completed, h) (laws.nought-le-lit 1 7)

    recorded-completed :
        (calls : List (FillArgs F)) (p : ParentOrder F)
        → IsBooked p
        → is_completed p ≡ true
        → is_completed (recorded calls p) ≡ true
    unfolding recorded with_fill
    recorded-completed [] p b h = h
    recorded-completed (a ∷ rest) p b h =
        let step =
          record_child_fill-ends (λ q. IsBooked q × (is_completed q ≡ true)) a p (b, h)
            λ c s m. (
              with_fill-IsBooked laws c p b s m,
              is_completed-of_le (with_fill c p) (
                  laws.le_trans _ _ _
                    (laws.sub_le-sub p.total_quantity _ _ b.total_positive.0 (
                      laws.le_add_nonneg _ _ b.filled_nonneg
                        (nonneg_of_positive laws _ s.quantity_positive).1))
                    (completed_le p h)),
            ) in
        recorded-completed rest (record_child_fill a p).1 (step.0) (step.1)

    sor_time_no_timeout : (v : Value F) (e : Error) → sor_time v ≡ err e → e ≢ algorithm_timeout
    unfolding sor_time
    sor_time_no_timeout v e h = ground arith

    check_timeout_completed :
        (now : Value F) (p : ParentOrder F)
        → is_completed p ≡ true
        → check_timeout now p ≢ err algorithm_timeout
    unfolding check_timeout
    check_timeout_completed now p h = elim (Result-cases (sor_time now)) [
      | inl (e, q) ↦ rw (check_timeout, q) λ r. sor_time_no_timeout now e q cc
      | inr (t, q) ↦
          rw (check_timeout, q)
            (elim (Bool-cases (ltb t p.start_time_ns)) [
              | inl l ↦ rw l λ r. cc
              | inr l ↦ rw (l, h) λ r. cc
            ])
    ]

    -- Once an order that the constructor returned is completed by calls of `record_child_fill`, it is
    -- completed after any further calls, and `check_timeout` never raises for the horizon, whenever asked.
    pub recorded-no_timeout :
        (a : ParentArgs F) (p : ParentOrder F) (calls further : List (FillArgs F)) (now : Value F)
        → new_parent a ≡ ok p
        → is_completed (recorded calls p) ≡ true
        → (is_completed (recorded further (recorded calls p)) ≡ true)
          × (check_timeout now (recorded further (recorded calls p)) ≢ err algorithm_timeout)
    recorded-no_timeout a p calls further now h c =
        let done = recorded-completed further (recorded calls p) (recorded-Books a p calls h) c in
        (done, check_timeout_completed now (recorded further (recorded calls p)) done)
