-- ===== src/Schedule/Forecast.antt =====
-- The forecasts of VolumeAdaptiveVWAPScheduler in src/quant/execution/algorithms.py are not negative.
use mathlib.Core.Path.{subst}
use quant_stuff.Prelude.{◌≡◌, not, length, ◌==◌, ℕ, true, List, [], ◌∷◌, arith, All}
use quant_stuff.Float.{Float, IsOrdered, lt, nought, ◌≼◌, IsNonneg}
use quant_stuff.Float.Order.{nonneg_of_not-lt}
use quant_stuff.Orders.Types.{ok, bind_ok, raise_if_ok, ok_injective, invalid_schedule}
use quant_stuff.Orders.Validate.{Value}
use quant_stuff.Schedule.Slices.{schedule_scalar, finite_schedule, nonneg_schedule_scalar}
use quant_stuff.Schedule.Vwap.{Volumes, absent, unrelated, listed, sanitized, volumes_of, blended}

module _ {F : Type 0} ⦃f : Float F⦄ where
  unfoldable pub IsWeight : F → Type 0
  IsWeight omega = (f.is_finite omega ≡ true) × (nought ≼ omega) × (omega ≼ f.lit 1 0)

  module _ (laws : IsOrdered F) where
    nonneg_schedule_scalar-IsNonneg :
        (v : Value F) (x : F) → nonneg_schedule_scalar v ≡ ok x → IsNonneg x
    unfolding nonneg_schedule_scalar schedule_scalar finite_schedule
    nonneg_schedule_scalar-IsNonneg v x h =
        let (y, e, h1) = bind_ok (schedule_scalar v) _ h in
        let (low, h2) = raise_if_ok (lt y nought) invalid_schedule _ h1 in
        subst IsNonneg (ok_injective h2) (nonneg_of_not-lt laws y (ground arith) low)

    sanitized_nonneg : (vs : List (Value F)) (xs : List F) → sanitized vs ≡ ok xs → All IsNonneg xs
    unfolding sanitized
    sanitized_nonneg [] xs h = subst (All IsNonneg) (ok_injective h) tt
    sanitized_nonneg (v ∷ vs) xs h =
        let (y, e, h1) = bind_ok (nonneg_schedule_scalar v) _ h in
        let (ys, d, h2) = bind_ok (sanitized vs) _ h1 in
        subst (All IsNonneg) (ok_injective h2)
          (nonneg_schedule_scalar-IsNonneg v y e, sanitized_nonneg vs ys d)

    pub volumes_of_nonneg :
        (bars : ℕ) (vs : Volumes F) (xs : List F) → volumes_of bars vs ≡ ok xs → All IsNonneg xs
    unfolding volumes_of
    volumes_of_nonneg bars absent xs h = cc
    volumes_of_nonneg bars unrelated xs h = cc
    volumes_of_nonneg bars (listed vs) xs h =
        let (_, k) = raise_if_ok (not (length vs == bars)) invalid_schedule _ h in
        sanitized_nonneg vs xs k

    pub blended_nonneg :
        (omega : F) (es rts : List F)
        → IsWeight omega
        → All IsNonneg es
        → All IsNonneg rts
        → All (λ v. nought ≼ v) (blended omega es rts)
    unfolding blended IsWeight
    blended_nonneg omega [] rts w p q = tt
    blended_nonneg omega (e ∷ es) [] w p q = tt
    blended_nonneg omega (e ∷ es) (r ∷ rts) w p q =
        let one = laws.lit_finite 1 0 in
        let other = laws.sub_nonneg (f.lit 1 0) omega one (w.0) (w.2) in
        let finite =
          laws.finite_between (f.sub (f.lit 1 0) omega) (f.lit 1 0) other
            (laws.sub-le (f.lit 1 0) omega one (w.1)) one in
        (
          laws.add_nonneg _ _ (laws.mul_nonneg omega e (w.0) (p.0.0) (w.1) (p.0.1))
              (laws.mul_nonneg _ r finite (q.0.0) other (q.0.1)),
          blended_nonneg omega es rts w (p.1) (q.1),
        )
