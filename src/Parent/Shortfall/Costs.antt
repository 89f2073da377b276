-- ===== src/Parent/Shortfall/Costs.antt =====
-- The costs of `compute_implementation_shortfall` in src/quant/execution/parent_order.py by side.
use quant_stuff.Prelude.{◌≡◌, ◌⊎◌, refl, inl, inr, Bool, true, false, arith, Bool-cases}
use quant_stuff.Float.{Float, IsOrdered, lt, nought, ◌≼◌}
use quant_stuff.Orders.Types.{OrderSide}
use quant_stuff.Parent.Shortfall.{drift, side_sign}
use quant_stuff.Parent.Fills.{mass_tolerance}

module _ {F : Type 0} ⦃f : Float F⦄ where
  -- a price that moved against the side: up for a buy, down for a sell
  pub is_adverse : OrderSide → F → F → Bool
  is_adverse OrderSide.buy before now = f.le before now
  is_adverse OrderSide.sell before now = f.le now before

  -- the units that an order of a side gains
  pub units : OrderSide → F → F
  units OrderSide.buy q = q
  units OrderSide.sell q = f.sub nought q

  -- The cost of a move of the price on a quantity. A move against the side costs nothing or more.
  pub data Cost (side : OrderSide) (q before now : F) : F → Type 0 where
    untraded : lt mass_tolerance q ≡ false → Cost side q before now nought
    traded :
        {cost : F}
        → lt mass_tolerance q ≡ true
        → cost ≡ f.mul (units side q) (f.sub now before)
        → (is_adverse side before now ≡ false) ⊎ (nought ≼ cost)
        → Cost side q before now cost

  module _ (laws : IsOrdered F) where
    above_nought : (q : F) → lt mass_tolerance q ≡ true → lt nought q ≡ true
    above_nought q h =
        let low = laws.nought-le-lit 1 7 in
        ground (arith, laws.le_trans nought mass_tolerance q, laws.le_trans q nought mass_tolerance)

    pub drift-Cost :
        (side : OrderSide) (q now before : F)
        → f.is_finite q ≡ true
        → f.is_finite now ≡ true
        → f.is_finite before ≡ true
        → Cost side q before now (drift side q now before)
    unfolding drift side_sign units is_adverse
    drift-Cost OrderSide.buy q now before hq hn hb = elim (Bool-cases (lt mass_tolerance q)) [
      | inr small ↦ rw (drift, small) (untraded small)
      | inl big ↦
          rw (drift, big)
            (traded big (rw (side_sign, laws.one_mul q) refl) (elim (Bool-cases (f.le before now)) [
              | inr e ↦ inl e
              | inl e ↦ inr (
                  rw (side_sign, laws.one_mul q)
                    (laws.mul_positive q _ hq (above_nought q big)
                      (laws.sub_nonneg now before hn hb e)))
            ]))
    ]
    drift-Cost OrderSide.sell q now before hq hn hb = elim (Bool-cases (lt mass_tolerance q)) [
      | inr small ↦ rw (drift, small) (untraded small)
      | inl big ↦
          let positive = above_nought q big in
          rw (drift, big)
            (traded big (rw (side_sign, laws.minus_one_mul q positive) refl)
              (elim (Bool-cases (f.le now before)) [
                | inr e ↦ inl e
                | inl e ↦ inr (
                    rw (side_sign, laws.minus_one_mul q positive)
                      (laws.mul_nonpos (f.sub nought q) _ (laws.negate_finite q hq)
                        (laws.negative-lt q positive) (laws.sub_nonpos now before hn hb e)))
              ]))
    ]
