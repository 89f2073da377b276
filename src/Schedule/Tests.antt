-- ===== src/Schedule/Tests.antt =====
-- VolumeAdaptiveVWAPScheduler of src/quant/execution/algorithms.py at concrete values.
use quant_stuff.Prelude.{◌≡◌, refl, List, [], ◌∷◌, pos}
use quant_stuff.Float.{Fixed, Fixed-IsOrdered, decimal, fixed_float}
use quant_stuff.Orders.Types.{ok, err, insufficient_liquidity}
use quant_stuff.Orders.Validate.{Value}
use quant_stuff.Parent.Fills.{sor_time, positive_sor_scalar, sor_scalar, finite_sor}
use quant_stuff.Schedule.Slices.{
  ScheduledSlice, start_time, slice_limit, new_slice, finite_schedule, schedule_scalar,
  positive_schedule_scalar, nonneg_schedule_scalar, emit,
}
use quant_stuff.Schedule.Vwap.{
  Vwap, Volumes, absent, listed, sanitized, curve_of, new_vwap, interval_ns, static_slices,
  static_schedule, is_scheduled, volumes_of, blended, forecast, share, dynamic_slices,
  dynamic_schedule, schedule_by, generate_schedule,
}
use quant_stuff.Schedule.Capped.{slice_of, ByVolume, generate_schedule-ByVolume}

abbrev add_all : List Fixed → Fixed
add_all [] = decimal 0 0
add_all (x ∷ xs) = fixed_float.add x (add_all xs)

abbrev half_and_half : Volumes Fixed
half_and_half = listed (Value.int (pos 3) ∷ Value.int (pos 3) ∷ [])

abbrev twenty : Vwap Fixed
twenty = record {
  total_quantity = decimal 20 0;
  weights = decimal 0 50_000_000 ∷ decimal 0 50_000_000 ∷ [];
  max_participation_rate = decimal 0 15_000_000;
  smoothing_weight = decimal 0 70_000_000;
  interval_sec = decimal 60 0;
}

made :
    new_vwap add_all
      (Value.int (pos 20))
      half_and_half
      (Value.flt (decimal 0 15_000_000))
      (Value.flt (decimal 0 70_000_000))
      (Value.int (pos 60))
    ≡ ok twenty
unfolding new_vwap curve_of sanitized positive_schedule_scalar nonneg_schedule_scalar
    schedule_scalar finite_schedule
made = refl

-- Without volumes the halves are sent, a minute apart.
halves :
    generate_schedule add_all twenty (Value.int (pos 7)) absent absent
    ≡ ok (slice_of 0 (decimal 10 0) 7 ∷ slice_of 1 (decimal 10 0) 60_000_000_007 ∷ [])
unfolding generate_schedule schedule_by static_schedule static_slices is_scheduled interval_ns
    start_time emit new_slice slice_limit sor_time positive_sor_scalar sor_scalar finite_sor
halves = refl

-- Forty are expected in the first bar and none in the second, and more are seen in the first.
abbrev expected : List (Value Fixed)
expected = Value.int (pos 40) ∷ Value.int (pos 0) ∷ []

abbrev seen : Volumes Fixed
seen = listed (Value.int (pos 60) ∷ Value.int (pos 0) ∷ [])

abbrev capped_slices : List (ScheduledSlice Fixed)
capped_slices = slice_of 0 (decimal 6 90_000_000) 7 ∷ []

cut : generate_schedule add_all twenty (Value.int (pos 7)) (listed expected) seen ≡ ok capped_slices
unfolding generate_schedule schedule_by dynamic_schedule dynamic_slices is_scheduled interval_ns
    volumes_of sanitized forecast blended share start_time emit new_slice slice_limit sor_time
    positive_sor_scalar sor_scalar finite_sor nonneg_schedule_scalar schedule_scalar finite_schedule
cut = refl

generate_schedule-ByVolume_example : ByVolume twenty (Value.int (pos 7)) expected seen capped_slices
generate_schedule-ByVolume_example =
    generate_schedule-ByVolume Fixed-IsOrdered add_all (Value.int (pos 20))
      (Value.flt (decimal 0 15_000_000)) (Value.flt (decimal 0 70_000_000)) (Value.int (pos 60))
      half_and_half twenty (Value.int (pos 7)) expected seen capped_slices made cut

-- No volume in any bar: no schedule.
dry :
    generate_schedule add_all twenty
      (Value.int (pos 7))
      (listed (Value.int (pos 0) ∷ Value.int (pos 0) ∷ []))
      absent
    ≡ err insufficient_liquidity
unfolding generate_schedule schedule_by dynamic_schedule dynamic_slices is_scheduled interval_ns
    volumes_of sanitized forecast share start_time emit nonneg_schedule_scalar schedule_scalar
    finite_schedule
dry = refl
