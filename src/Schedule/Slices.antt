-- ===== src/Schedule/Slices.antt =====
-- ScheduledSlice and the checks of scalars in src/quant/execution/algorithms.py.
use quant_stuff.Prelude.{ℕ, Option, none, some, List, [], ◌∷◌, pos, if◌then◌else◌, nonneg?}
use quant_stuff.Float.{Float, lt, nought}
use quant_stuff.Orders.Types.{
  Result, ok, err, ◌>>=◌, ◌>>◌, raise_if, invalid_schedule, overflow_error,
}
use quant_stuff.Orders.Validate.{Value}
use quant_stuff.Parent.Fills.{sor_time, positive_sor_scalar}

pub record ScheduledSlice (F : Type 0) : Type 0 where
  pub slice_index : ℕ
  pub quantity : F
  pub scheduled_time_ns : ℕ
  pub price_limit : Option F

module _ {F : Type 0} where
  -- `start_time_ns`: an `int` that is no `bool` and not negative
  unfoldable pub start_time : Value F → Result ℕ
  start_time (Value.int n) = elim (nonneg? n) [ none ↦ err invalid_schedule | some t ↦ ok t ]
  start_time _ = err invalid_schedule

  module _ ⦃f : Float F⦄ where
    unfoldable pub slice_limit : Value F → Result (Option F)
    slice_limit Value.null = ok none
    slice_limit v = do x ← positive_sor_scalar v; ok (some x)

    unfoldable pub new_slice : Value F → Value F → Value F → Value F → Result (ScheduledSlice F)
    unfolding slice_limit
    new_slice slice_index quantity scheduled_time_ns price_limit = do
      n ← sor_time slice_index
      q ← positive_sor_scalar quantity
      t ← sor_time scheduled_time_ns
      limit ← slice_limit price_limit
      ok (record { slice_index = n; quantity = q; scheduled_time_ns = t; price_limit = limit })

    unfoldable pub finite_schedule : F → Result F
    finite_schedule x = if f.is_finite x then ok x else err invalid_schedule

    -- an `int` or `float` that is no `bool` and finite; `isfinite` raises at a huge `int`
    unfoldable pub schedule_scalar : Value F → Result F
    unfolding finite_schedule
    schedule_scalar (Value.flt x) = finite_schedule x
    schedule_scalar (Value.int n) = elim (f.of_int n) [
      | none ↦ err overflow_error
      | some x ↦ finite_schedule x
    ]
    schedule_scalar _ = err invalid_schedule

    unfoldable pub positive_schedule_scalar : Value F → Result F
    unfolding schedule_scalar
    positive_schedule_scalar v = do
      x ← schedule_scalar v
      raise_if (f.le x nought) invalid_schedule
      ok x

    unfoldable pub nonneg_schedule_scalar : Value F → Result F
    unfolding schedule_scalar
    nonneg_schedule_scalar v = do
      x ← schedule_scalar v
      raise_if (lt x nought) invalid_schedule
      ok x

    -- the slice of a quantity, if that is positive
    unfoldable pub emit : ℕ → F → ℕ → Result (List (ScheduledSlice F))
    unfolding new_slice
    emit n q t =
        if lt nought q
        then (do
          slice ← new_slice (Value.int (pos n)) (Value.flt q) (Value.int (pos t)) Value.null
          ok (slice ∷ []))
        else ok []
