-- ===== src/Schedule/Vwap.antt =====
-- VolumeAdaptiveVWAPScheduler of src/quant/execution/algorithms.py. `sum` of floats is an argument.
use quant_stuff.Prelude.{
  ℕ, ◌+◌, ◌*◌, ◌==◌, Bool, true, false, not, ◌&&◌, none, some, List, [], ◌∷◌, ◌++◌, map, length,
  if◌then◌else◌,
}
use quant_stuff.Float.{Float, lt, nought, fmin, absolute}
use quant_stuff.Orders.Types.{
  Result, ok, err, ◌>>=◌, ◌>>◌, raise_if, invalid_schedule, overflow_error, mass_conservation,
  insufficient_liquidity,
}
use quant_stuff.Orders.Validate.{Value}
use quant_stuff.Parent.Fills.{mass_tolerance}
use quant_stuff.Schedule.Slices.{
  ScheduledSlice, start_time, schedule_scalar, positive_schedule_scalar, nonneg_schedule_scalar,
  emit,
}

pub record Vwap (F : Type 0) : Type 0 where
  pub total_quantity : F
  pub weights : List F
  pub max_participation_rate : F
  pub smoothing_weight : F
  pub interval_sec : F

-- a sequence that may be missing, or no sequence
pub data Volumes (F : Type 0) : Type 0 where
  absent unrelated : Volumes F
  listed : List (Value F) → Volumes F

module _ {F : Type 0} ⦃f : Float F⦄ where
  -- every element of a sequence is a finite number that is not negative
  unfoldable pub sanitized : List (Value F) → Result (List F)
  unfolding nonneg_schedule_scalar
  sanitized [] = ok []
  sanitized (v ∷ vs) = do x ← nonneg_schedule_scalar v; rest ← sanitized vs; ok (x ∷ rest)

  unfoldable pub curve_of : Volumes F → Result (List F)
  unfolding sanitized
  curve_of (listed vs) = do raise_if (length vs == 0) invalid_schedule; sanitized vs
  curve_of _ = err invalid_schedule

  -- the total, the curve, the greatest rate, the smoothing weight and the interval
  unfoldable pub new_vwap :
      (List F → F) → Value F → Volumes F → Value F → Value F → Value F → Result (Vwap F)
  unfolding curve_of
  new_vwap sum total_quantity curve max_participation_rate smoothing_weight interval_sec = do
    total ← positive_schedule_scalar total_quantity
    xs ← curve_of curve
    raise_if (f.le (sum xs) nought) invalid_schedule
    rate ← schedule_scalar max_participation_rate
    raise_if (not (lt nought rate && f.le rate (f.lit 1 0))) invalid_schedule
    omega ← schedule_scalar smoothing_weight
    raise_if (not (f.le nought omega && f.le omega (f.lit 1 0))) invalid_schedule
    interval ← positive_schedule_scalar interval_sec
    ok (record {
      total_quantity = total;
      weights = map (λ x. f.div x (sum xs)) xs;
      max_participation_rate = rate;
      smoothing_weight = omega;
      interval_sec = interval;
    })

  -- `int(self.interval_sec * 1_000_000_000)`
  unfoldable pub interval_ns : Vwap F → Result ℕ
  interval_ns s = elim (f.truncate (f.mul s.interval_sec (f.lit 1_000_000_000 0))) [
    | none ↦ err overflow_error
    | some n ↦ ok n
  ]

  -- the loop over the bars from `k` on, with `n` slices before and `rem` left: the last takes the rest
  unfoldable pub static_slices :
      Vwap F → ℕ → ℕ → List F → ℕ → ℕ → F → Result (List (ScheduledSlice F))
  static_slices s start interval [] k n rem = ok []
  static_slices s start interval (w ∷ []) k n rem = emit n rem (start + k * interval)
  static_slices s start interval (w ∷ x ∷ ws) k n rem =
      let q = f.mul s.total_quantity w in
      let sent = lt nought q in
      let rest =
        static_slices s start interval (x ∷ ws) (k + 1) (if sent then n + 1 else n)
          (if sent then f.sub rem q else rem) in
      (do first ← emit n q (start + k * interval); later ← rest; ok (first ++ later))

  unfoldable pub is_scheduled : List (ScheduledSlice F) → Bool
  is_scheduled [] = false
  is_scheduled (x ∷ xs) = true

  -- without volumes
  unfoldable pub static_schedule : (List F → F) → Vwap F → ℕ → ℕ → Result (List (ScheduledSlice F))
  unfolding static_slices is_scheduled
  static_schedule sum s start interval = do
    slices ← static_slices s start interval s.weights 0 0 s.total_quantity
    raise_if (not (is_scheduled slices)) invalid_schedule
    raise_if
        (lt mass_tolerance (absolute (f.sub (sum (map (λ x. x.quantity) slices)) s.total_quantity)))
        mass_conservation
    ok slices

  unfoldable pub volumes_of : ℕ → Volumes F → Result (List F)
  unfolding sanitized
  volumes_of bars (listed vs) = do raise_if (not (length vs == bars)) invalid_schedule; sanitized vs
  volumes_of bars _ = err invalid_schedule

  -- omega * v_exp + (1 - omega) * v_rt
  unfoldable pub blended : F → List F → List F → List F
  blended omega [] rts = []
  blended omega (e ∷ es) [] = []
  blended omega (e ∷ es) (r ∷ rts) =
      f.add (f.mul omega e) (f.mul (f.sub (f.lit 1 0) omega) r) ∷ blended omega es rts

  -- the forecast of each bar
  unfoldable pub forecast : ℕ → F → List F → Volumes F → Result (List F)
  unfolding blended volumes_of
  forecast bars omega es absent = ok es
  forecast bars omega es rt = do rts ← volumes_of bars rt; ok (blended omega es rts)

  -- the quantity of a bar with its weight, those of it and later ones, its forecast and what is left
  unfoldable pub share : (List F → F) → F → F → List F → F → F → F
  share sum rate w ws v rem =
      if lt nought (sum (w ∷ ws)) && lt nought rem
      then fmin (f.mul rem (f.div w (sum (w ∷ ws)))) (f.mul rate v)
      else nought

  unfoldable pub dynamic_slices :
      (List F → F) → F → ℕ → ℕ → List F → List F → ℕ → ℕ → F → Result (List (ScheduledSlice F))
  unfolding share
  dynamic_slices sum rate start interval [] vs k n rem = ok []
  dynamic_slices sum rate start interval (w ∷ ws) [] k n rem = ok []
  dynamic_slices sum rate start interval (w ∷ ws) (v ∷ vs) k n rem =
      let q = share sum rate w ws v rem in
      let sent = lt nought q in
      let rest =
        dynamic_slices sum rate start interval ws vs (k + 1) (if sent then n + 1 else n)
          (if sent then f.sub rem q else rem) in
      (do first ← emit n q (start + k * interval); later ← rest; ok (first ++ later))

  -- with volumes: expected ones, and perhaps those seen
  unfoldable pub dynamic_schedule :
      (List F → F) → Vwap F → ℕ → ℕ → Volumes F → Volumes F → Result (List (ScheduledSlice F))
  unfolding volumes_of forecast dynamic_slices is_scheduled
  dynamic_schedule sum s start interval expected realtime = do
    es ← volumes_of (length s.weights) expected
    vs ← forecast (length s.weights) s.smoothing_weight es realtime
    slices ←
        dynamic_slices sum s.max_participation_rate start interval s.weights vs 0 0 s.total_quantity
    raise_if (not (is_scheduled slices)) insufficient_liquidity
    ok slices

  unfoldable pub schedule_by :
      (List F → F) → Vwap F → ℕ → ℕ → Volumes F → Volumes F → Result (List (ScheduledSlice F))
  schedule_by sum s start interval absent realtime = static_schedule sum s start interval
  schedule_by sum s start interval expected realtime =
      dynamic_schedule sum s start interval expected realtime

  unfoldable pub generate_schedule :
      (List F → F) → Vwap F → Value F → Volumes F → Volumes F → Result (List (ScheduledSlice F))
  unfolding interval_ns schedule_by
  generate_schedule sum s start_time_ns expected realtime = do
    start ← start_time start_time_ns
    interval ← interval_ns s
    schedule_by sum s start interval expected realtime
