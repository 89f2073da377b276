-- ===== src/Risk/Firewall/Projects.antt =====
-- The figures that `validate_order` of src/quant/execution/risk.py computes are those of the description.
use quant_stuff.Prelude.{
  ◌≡◌, refl, ap, ◌⊎◌, ◌↔◌, not, ◌&&◌, Option, none, some, String, arith, if◌then◌else◌,
}
use quant_stuff.Prelude.Dict.{Dict, lookup}
use quant_stuff.Float.{Float, IsOrdered, fmin, fmax, nought, absolute, IsPositive}
use quant_stuff.Float.Order.{IsPositive-of_not-le}
use quant_stuff.Orders.Types.{Order, OrderSide, Result, ok, err, non_finite_risk_input}
use quant_stuff.Risk.State.{PortfolioRiskState, amount, price_of, netted}
use quant_stuff.Risk.Firewall.{
  candidate_price, reference_price, closable, required_margin, signed_quantity, reduces,
  projected_exposure,
}
use quant_stuff.Risk.Firewall.Projection.{
  Noted, pending_sells, Referenced, unclaimed, locked_cash, working, against, largest,
}

module _ {F : Type 0} ⦃f : Float F⦄ where
  sells_lem : (leaves : F) → absolute (fmin nought leaves) ≡ pending_sells leaves
  sells_lem leaves = ground arith

  closable-unclaimed :
      (side : OrderSide) (position leaves : F)
      → closable side position leaves ≡ fmax nought (unclaimed side position leaves)
  unfolding closable unclaimed
  closable-unclaimed OrderSide.buy position leaves = refl
  closable-unclaimed OrderSide.sell position leaves = rw (sells_lem leaves) refl

  pub required_margin-locked_cash :
      (order : Order F) (ref : F) (s : PortfolioRiskState F)
      → required_margin order ref s ≡ locked_cash order s ref
  unfolding required_margin
  required_margin-locked_cash order ref s =
      ap (λ u. f.mul (fmax nought (f.sub order.quantity u)) ref)
        (closable-unclaimed order.side (amount order.symbol s.positions)
          (amount order.symbol s.pending_leaves))

  module _ (laws : IsOrdered F) where
    valid : Option F → Result F
    valid x = elim x [
      | none ↦ err non_finite_risk_input
      | some p ↦ if f.is_finite p && not (f.le p nought) then ok p else err non_finite_risk_input
    ]

    valid_iff : (x : Option F) (p : F) → (valid x ≡ ok p) ↔ ((x ≡ some p) × IsPositive p)
    unfolding valid
    valid_iff none p = (λ h. cc, λ h. cc)
    valid_iff (some q) p = (into, back)
      where
        into : valid (some q) ≡ ok p → (some q ≡ some p) × IsPositive p
        into h = ground (arith, IsPositive-of_not-le laws q)

        back : (some q ≡ some p) × IsPositive p → valid (some q) ≡ ok p
        back (e, h) = ground arith

    pub price_of_iff :
        (sym : String) (prices : Dict F) (p : F) → (price_of sym prices ≡ ok p) ↔ Noted prices sym p
    unfolding price_of valid
    price_of_iff sym prices p = valid_iff (lookup sym prices) p

    candidate_price_iff :
        (given : Option F) (order : Order F) (s : PortfolioRiskState F) (ref : F)
        → (candidate_price given order s ≡ some ref) ↔ (
            (given ≡ some ref)
            ⊎ ((given ≡ none)
                × ((order.price ≡ some ref)
                    ⊎ ((order.price ≡ none) × (lookup order.symbol s.current_prices ≡ some ref)))))
    unfolding candidate_price
    candidate_price_iff given order s ref = (λ h. ground arith, λ h. ground arith)

    pub reference_price_iff :
        (given : Option F) (order : Order F) (s : PortfolioRiskState F) (ref : F)
        → (reference_price given order s ≡ ok ref) ↔ Referenced given order s ref
    unfolding reference_price valid
    reference_price_iff given order s ref =
        let (into, back) = valid_iff (candidate_price given order s) ref in
        let (found, kept) = candidate_price_iff given order s ref in
        (λ h. let (e, p) = into h in (p, found e), λ (p, e). back (kept e, p))

    pub projected_exposure-largest :
        (side : OrderSide) (quantity position leaves : F)
        → IsPositive quantity
        → projected_exposure (signed_quantity side quantity) position leaves
          ≡ largest
              (against side position (working side quantity leaves))
              position
              (working side quantity leaves)
    unfolding projected_exposure reduces signed_quantity netted working against
    projected_exposure-largest OrderSide.buy quantity position leaves h = ground arith
    projected_exposure-largest OrderSide.sell quantity position leaves h =
        ground (arith, laws.negative-lt quantity h.1)
