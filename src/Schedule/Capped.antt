-- ===== src/Schedule/Capped.antt =====
-- The participation cap of VolumeAdaptiveVWAPScheduler in src/quant/execution/algorithms.py.
use mathlib.Core.Path.{subst}
use quant_stuff.Prelude.{
  ◌≡◌, not, length, inl, inr, ℕ, ◌+◌, ◌*◌, true, false, none, List, [], ◌∷◌, ◌++◌, ◌&&◌,
  if◌then◌else◌, Bool-cases, arith, All, All-map,
}
use quant_stuff.Float.{Float, IsOrdered, lt, nought, fmin, ◌≼◌, IsPositive, IsNonneg}
use quant_stuff.Orders.Types.{
  ok, bind_ok, raise_if_ok, ok_injective, invalid_schedule, insufficient_liquidity,
}
use quant_stuff.Orders.Validate.{Value}
use quant_stuff.Parent.Fills.{sor_time, positive_sor_scalar, sor_scalar, finite_sor}
use quant_stuff.Schedule.Slices.{
  start_time, positive_schedule_scalar, ScheduledSlice, new_slice, slice_limit, schedule_scalar,
  finite_schedule, emit,
}
use quant_stuff.Schedule.Forecast.{IsWeight, volumes_of_nonneg, blended_nonneg}
use quant_stuff.Schedule.Vwap.{
  new_vwap, curve_of, schedule_by, is_scheduled, Vwap, Volumes, absent, unrelated, listed,
  volumes_of, forecast, share, dynamic_slices, dynamic_schedule, generate_schedule, interval_ns,
}

module _ {F : Type 0} ⦃f : Float F⦄ where
  abbrev pub slice_of : ℕ → F → ℕ → ScheduledSlice F
  slice_of n q t = record {
    slice_index = n;
    quantity = q;
    scheduled_time_ns = t;
    price_limit = none;
  }

  -- The slices of the bars from `k` on, the first of them numbered `n`: a bar has none, or one that is
  -- positive, at its time, and at most the rate of the bar's forecast.
  pub data Capped (rate : F) (start interval : ℕ)
      : ℕ → ℕ → List F → List (ScheduledSlice F) → Type 0 where
    ended : {k n : ℕ} {vs : List F} → Capped rate start interval k n vs []
    passed :
        {k n : ℕ} {v : F} {vs : List F} {xs : List (ScheduledSlice F)}
        → Capped rate start interval (k + 1) n vs xs
        → Capped rate start interval k n (v ∷ vs) xs
    sent :
        {k n : ℕ} {v : F} {vs : List F} {xs : List (ScheduledSlice F)} (q : F)
        → IsPositive q
        → q ≼ f.mul rate v
        → Capped rate start interval (k + 1) (n + 1) vs xs
        → Capped rate start interval k n (v ∷ vs) (slice_of n q (start + k * interval) ∷ xs)

  emit_some :
      (n : ℕ) (q : F) (t : ℕ) (xs : List (ScheduledSlice F))
      → lt nought q ≡ true
      → emit n q t ≡ ok xs
      → (f.is_finite q ≡ true) × (slice_of n q t ∷ [] ≡ xs)
  unfolding emit new_slice slice_limit sor_time positive_sor_scalar sor_scalar finite_sor
  emit_some n q t xs p h = elim (Bool-cases (f.is_finite q)) [
    | inl c ↦
        let low : f.le q nought ≡ false = ground arith in (c, ok_injective (rw (p, c, low) at h))
    | inr c ↦ (ground arith)
  ]

  emit_none :
      (n : ℕ) (q : F) (t : ℕ) (xs : List (ScheduledSlice F))
      → lt nought q ≡ false
      → emit n q t ≡ ok xs
      → [] ≡ xs
  unfolding emit
  emit_none n q t xs p h = ok_injective (rw p at h)

  module _ (laws : IsOrdered F) where
    fmin-le_cap : (a b : F) → nought ≼ b → lt nought (fmin a b) ≡ true → fmin a b ≼ b
    fmin-le_cap a b c h =
        ground (arith, laws.le_total a b, laws.refl_of_le nought b, laws.refl_of_le nought a)

    share-le :
        (sum : List F → F) (rate w : F) (ws : List F) (v rem : F)
        → nought ≼ f.mul rate v
        → lt nought (share sum rate w ws v rem) ≡ true
        → share sum rate w ws v rem ≼ f.mul rate v
    unfolding share
    share-le sum rate w ws v rem c h =
        elim (Bool-cases (lt nought (sum (w ∷ ws)) && lt nought rem)) [
          | inl d ↦
              rw (share, d)
                (fmin-le_cap (f.mul rem (f.div w (sum (w ∷ ws)))) (f.mul rate v) c
                  (rw (share, d) at h))
          | inr d ↦ rw (share, d) c
        ]

    dynamic_slices-Capped :
        (sum : List F → F) (rate : F) (start interval : ℕ) (ws vs : List F) (k n : ℕ) (rem : F)
        (xs : List (ScheduledSlice F))
        → IsPositive rate
        → All (λ v. nought ≼ v) vs
        → dynamic_slices sum rate start interval ws vs k n rem ≡ ok xs
        → Capped rate start interval k n vs xs
    unfolding dynamic_slices
    dynamic_slices-Capped sum rate start interval [] vs k n rem xs r p h =
        subst (Capped rate start interval k n vs) (ok_injective h) ended
    dynamic_slices-Capped sum rate start interval (w ∷ ws) [] k n rem xs r p h =
        subst (Capped rate start interval k n []) (ok_injective h) ended
    dynamic_slices-Capped sum rate start interval (w ∷ ws) (v ∷ vs) k n rem xs r p h =
        let q = share sum rate w ws v rem in
        let (first, e, h1) = bind_ok (emit n q (start + k * interval)) _ h in
        let (later, d, h2) =
          bind_ok
            (dynamic_slices sum rate start interval ws vs (k + 1) (if lt nought q then n + 1 else n)
              (if lt nought q then f.sub rem q else rem))
            _ h1 in
        let rest =
          dynamic_slices-Capped sum rate start interval ws vs (k + 1) _ _ later r (p.1) d in
        subst (Capped rate start interval k n (v ∷ vs)) (ok_injective h2)
          (elim (Bool-cases (lt nought q)) [
            | inl c ↦
                let (finite, one) = emit_some n q (start + k * interval) first c e in
                subst (λ ys. Capped rate start interval k n (v ∷ vs) (ys ++ later)) one
                  (sent q (finite, c)
                    (share-le sum rate w ws v rem (laws.mul_positive rate v (r.0) (r.1) (p.0)) c)
                    (rw c at rest))
            | inr c ↦
                subst (λ ys. Capped rate start interval k n (v ∷ vs) (ys ++ later))
                  (emit_none n q (start + k * interval) first c e) (passed (rw c at rest))
          ])

    forecast_nonneg :
        (bars : ℕ) (omega : F) (es vs : List F) (rt : Volumes F)
        → IsWeight omega
        → All IsNonneg es
        → forecast bars omega es rt ≡ ok vs
        → All (λ v. nought ≼ v) vs
    unfolding forecast
    forecast_nonneg bars omega es vs absent w p h =
        subst (All (λ v. nought ≼ v)) (ok_injective h) (All-map IsNonneg _ (λ x q. q.1) es p)
    forecast_nonneg bars omega es vs unrelated w p h = cc
    forecast_nonneg bars omega es vs (listed rs) w p h =
        let (rts, d, h1) = bind_ok (volumes_of bars (listed rs)) _ h in
        subst (All (λ v. nought ≼ v)) (ok_injective h1)
          (blended_nonneg laws omega es rts w p (volumes_of_nonneg laws bars (listed rs) rts d))

    IsSound : Vwap F → Type 0
    IsSound s = IsPositive s.max_participation_rate × IsWeight s.smoothing_weight

    schedule_scalar_finite : (v : Value F) (x : F) → schedule_scalar v ≡ ok x → f.is_finite x ≡ true
    unfolding schedule_scalar finite_schedule
    schedule_scalar_finite v x h = ground arith

    new_vwap-IsSound :
        (sum : List F → F) (total rate omega interval : Value F) (curve : Volumes F) (s : Vwap F)
        → new_vwap sum total curve rate omega interval ≡ ok s
        → IsSound s
    unfolding new_vwap IsSound IsWeight
    new_vwap-IsSound sum total rate omega interval curve s h =
        let (q, _, h1) = bind_ok (positive_schedule_scalar total) _ h in
        let (xs, _, h2) = bind_ok (curve_of curve) _ h1 in
        let (_, h3) = raise_if_ok (f.le (sum xs) nought) invalid_schedule _ h2 in
        let (x, ex, h4) = bind_ok (schedule_scalar rate) _ h3 in
        let (cx, h5) =
          raise_if_ok (not (lt nought x && f.le x (f.lit 1 0))) invalid_schedule _ h4 in
        let (w, ew, h6) = bind_ok (schedule_scalar omega) _ h5 in
        let (cw, h7) =
          raise_if_ok (not (f.le nought w && f.le w (f.lit 1 0))) invalid_schedule _ h6 in
        let (i, _, h8) = bind_ok (positive_schedule_scalar interval) _ h7 in
        let fx = schedule_scalar_finite rate x ex in
        let fw = schedule_scalar_finite omega w ew in
        subst IsSound (ok_injective h8) ((fx, ground arith), (fw, ground arith, ground arith))

  -- What the slices of a schedule by volumes are: those of the start, the interval and the forecasts that
  -- the arguments stand for, within the cap, and at least one.
  pub record ByVolume (s : Vwap F) (start_time_ns : Value F) (expected : List (Value F))
      (realtime : Volumes F) (xs : List (ScheduledSlice F)) : Type 0 where
    pub start : ℕ
    pub interval : ℕ
    pub es : List F
    pub vs : List F
    pub at_start : start_time start_time_ns ≡ ok start
    pub spaced : interval_ns s ≡ ok interval
    pub read : volumes_of (length s.weights) (listed expected) ≡ ok es
    pub forecasts : forecast (length s.weights) s.smoothing_weight es realtime ≡ ok vs
    pub capped : Capped s.max_participation_rate start interval 0 0 vs xs
    pub some_slice : is_scheduled xs ≡ true

  -- If the rules of IEEE 754 hold and a scheduler that the constructor returned returns a schedule for
  -- expected volumes, then there is at least one slice, and the bars in their order have each no slice or
  -- one that is positive, numbered in sequence, at the start and so many intervals, and of at most the
  -- greatest participation rate of the forecast of its bar.
  pub generate_schedule-ByVolume :
      (laws : IsOrdered F) (sum : List F → F) (total rate omega interval_sec : Value F)
      (curve : Volumes F) (s : Vwap F) (start_time_ns : Value F) (expected : List (Value F))
      (realtime : Volumes F) (xs : List (ScheduledSlice F))
      → new_vwap sum total curve rate omega interval_sec ≡ ok s
      → generate_schedule sum s start_time_ns (listed expected) realtime ≡ ok xs
      → ByVolume s start_time_ns expected realtime xs
  unfolding generate_schedule schedule_by dynamic_schedule IsSound
  generate_schedule-ByVolume laws sum total rate omega interval_sec curve s st expected rt xs made
        h =
      let sound = new_vwap-IsSound laws sum total rate omega interval_sec curve s made in
      let (start, a, h1) = bind_ok (start_time st) _ h in
      let (interval, b, h2) = bind_ok (interval_ns s) _ h1 in
      let (es, c, h3) = bind_ok (volumes_of (length s.weights) (listed expected)) _ h2 in
      let (vs, d, h4) = bind_ok (forecast (length s.weights) s.smoothing_weight es rt) _ h3 in
      let (ys, e, h5) =
        bind_ok
          (dynamic_slices sum s.max_participation_rate start interval s.weights vs 0 0
            s.total_quantity)
          _ h4 in
      let (g, h6) = raise_if_ok (not (is_scheduled ys)) insufficient_liquidity _ h5 in
      subst (ByVolume s st expected rt) (ok_injective h6) (record {
        start = start;
        interval = interval;
        es = es;
        vs = vs;
        at_start = a;
        spaced = b;
        read = c;
        forecasts = d;
        capped =
            dynamic_slices-Capped laws sum s.max_participation_rate start interval s.weights vs 0 0
              s.total_quantity ys (sound.0)
              (forecast_nonneg laws (length s.weights) s.smoothing_weight es vs rt (sound.1)
                (volumes_of_nonneg laws (length s.weights) (listed expected) es c) d)
              e;
        some_slice = ground arith;
      })
