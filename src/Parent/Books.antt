-- ===== src/Parent/Books.antt =====
-- The books of a ParentOrder in src/quant/execution/parent_order.py: its totals and its fills.
use mathlib.Core.Path.{subst}
use quant_stuff.Prelude.{
  ◌≡◌, refl, ap, ℕ, true, false, ◌&&◌, List, [], ◌∷◌, ◌++◌, ltb, arith, All, All-append,
}
use quant_stuff.Float.{Float, IsOrdered, lt, nought, ◌≼◌, IsPositive, IsNonneg}
use quant_stuff.Float.Order.{IsPositive-of_not-le, nonneg_of_not-lt, nonneg_of_positive}
use quant_stuff.Orders.Types.{ok, bind_ok, raise_if_ok, ok_injective}
use quant_stuff.Orders.Validate.{Value}
use quant_stuff.Parent.Fills.{
  ChildFillRecord, FillArgs, ParentOrder, sor_scalar, finite_sor, positive_sor_scalar,
  nonneg_sor_scalar, sor_time, sor_text, mass_tolerance, new_child_fill, with_fill,
}

module _ {F : Type 0} ⦃f : Float F⦄ where
  -- the sum of a figure over the fills, in the order in which they came
  unfoldable pub tally : (ChildFillRecord F → F) → List (ChildFillRecord F) → F → F
  tally g [] x = x
  tally g (c ∷ cs) x = tally g cs (f.add x (g c))

  tally_snoc :
      (g : ChildFillRecord F → F) (cs : List (ChildFillRecord F)) (c : ChildFillRecord F) (x : F)
      → tally g (cs ++ (c ∷ [])) x ≡ f.add (tally g cs x) (g c)
  unfolding tally
  tally_snoc g [] c x = refl
  tally_snoc g (b ∷ cs) c x = tally_snoc g cs c (f.add x (g b))

  -- The books of a parent order: its running totals are the sums over its fills, the filled quantity is
  -- not above the target and its tolerance, and every fill is sound and no earlier than the start.
  pub record SoundFill (start : ℕ) (c : ChildFillRecord F) : Type 0 where
    pub quantity_positive : IsPositive c.quantity
    pub price_positive : IsPositive c.price
    pub fee_nonneg : IsNonneg c.fee
    pub in_time : (ltb 0 c.timestamp_ns && ltb c.timestamp_ns start) ≡ false

  pub record IsBooked (p : ParentOrder F) : Type 0 where
    pub total_positive : IsPositive p.total_quantity
    pub filled_sum : p.filled_quantity ≡ tally (λ c. c.quantity) p.child_fills nought
    pub notional_sum : p.cum_notional ≡ tally (λ c. f.mul c.quantity c.price) p.child_fills nought
    pub fee_sum : p.total_fees ≡ tally (λ c. c.fee) p.child_fills nought
    pub slippage_sum : p.cum_spread_slippage ≡ tally (λ c. c.spread_slippage) p.child_fills nought
    pub filled_nonneg : nought ≼ p.filled_quantity
    pub within_target : lt (f.add p.total_quantity mass_tolerance) p.filled_quantity ≡ false
    pub fills_sound : All (SoundFill p.start_time_ns) p.child_fills

  module _ (laws : IsOrdered F) where
    sor_scalar-finite : (v : Value F) (x : F) → sor_scalar v ≡ ok x → f.is_finite x ≡ true
    unfolding sor_scalar finite_sor
    sor_scalar-finite v x h = ground arith

    pub positive_sor_scalar-IsPositive :
        (v : Value F) (x : F) → positive_sor_scalar v ≡ ok x → IsPositive x
    unfolding positive_sor_scalar
    positive_sor_scalar-IsPositive v x h =
        let (y, e, h1) = bind_ok _ _ h in
        let (low, h2) = raise_if_ok _ _ _ h1 in
        subst IsPositive (ok_injective h2)
          (IsPositive-of_not-le laws y (sor_scalar-finite v y e) low)

    nonneg_sor_scalar-IsNonneg : (v : Value F) (x : F) → nonneg_sor_scalar v ≡ ok x → IsNonneg x
    unfolding nonneg_sor_scalar
    nonneg_sor_scalar-IsNonneg v x h =
        let (y, e, h1) = bind_ok _ _ h in
        let (low, h2) = raise_if_ok _ _ _ h1 in
        subst IsNonneg (ok_injective h2) (nonneg_of_not-lt laws y (sor_scalar-finite v y e) low)

    pub new_child_fill-SoundFill :
        (a : FillArgs F) (c : ChildFillRecord F) (start : ℕ)
        → new_child_fill a ≡ ok c
        → (ltb 0 c.timestamp_ns && ltb c.timestamp_ns start) ≡ false
        → SoundFill start c
    unfolding new_child_fill
    new_child_fill-SoundFill a c start h t =
        let (i, _, h1) = bind_ok (sor_text a.child_id) _ h in
        let (q, eq, h2) = bind_ok (positive_sor_scalar a.quantity) _ h1 in
        let (x, ex, h3) = bind_ok (positive_sor_scalar a.price) _ h2 in
        let (fee, ef, h4) = bind_ok (nonneg_sor_scalar a.fee) _ h3 in
        let (time, et, h5) = bind_ok (sor_time a.timestamp_ns) _ h4 in
        let (slip, es, h6) = bind_ok (sor_scalar a.spread_slippage) _ h5 in
        let e = ok_injective h6 in
        record {
          quantity_positive =
              subst IsPositive (ap (λ r. r.quantity) e) (positive_sor_scalar-IsPositive _ q eq);
          price_positive =
              subst IsPositive (ap (λ r. r.price) e) (positive_sor_scalar-IsPositive _ x ex);
          fee_nonneg = subst IsNonneg (ap (λ r. r.fee) e) (nonneg_sor_scalar-IsNonneg _ fee ef);
          in_time = t;
        }

    pub with_fill-IsBooked :
        (c : ChildFillRecord F) (p : ParentOrder F)
        → IsBooked p
        → SoundFill p.start_time_ns c
        → lt (f.add p.total_quantity mass_tolerance) (f.add p.filled_quantity c.quantity) ≡ false
        → IsBooked (with_fill c p)
    unfolding with_fill
    with_fill-IsBooked c p b s m = record {
      total_positive = b.total_positive;
      filled_sum =
          rw (tally_snoc (λ c. c.quantity) p.child_fills c nought)
            (ap (λ x. f.add x c.quantity) b.filled_sum);
      notional_sum =
          rw (tally_snoc (λ c. f.mul c.quantity c.price) p.child_fills c nought)
            (ap (λ x. f.add x (f.mul c.quantity c.price)) b.notional_sum);
      fee_sum =
          rw (tally_snoc (λ c. c.fee) p.child_fills c nought) (ap (λ x. f.add x c.fee) b.fee_sum);
      slippage_sum =
          rw (tally_snoc (λ c. c.spread_slippage) p.child_fills c nought)
            (ap (λ x. f.add x c.spread_slippage) b.slippage_sum);
      filled_nonneg =
          laws.add_nonneg _ _ b.filled_nonneg (nonneg_of_positive laws _ s.quantity_positive).1;
      within_target = m;
      fills_sound =
          All-append (SoundFill p.start_time_ns) p.child_fills (c ∷ []) b.fills_sound (s, tt);
    }
