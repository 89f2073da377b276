-- ===== src/TaxLots/Consume.antt =====
-- What the matching of a fill in `allocate_fill` of src/quant/execution/tax_lot.py does to the lots.
use quant_stuff.Prelude.{◌≡◌, sym, ◌∙◌, true, false, arith, inl, inr, Bool-cases, false≢true}
use quant_stuff.Float.{Float, IsOrdered, lt, fmin, nought, ◌≼◌, IsNonneg, IsPositive}
use quant_stuff.Float.Order.{fmin-le_left, le-fmin, le_of_not-lt}
use quant_stuff.TaxLots.{TaxLot, LotSide, dust, is_open}
use quant_stuff.TaxLots.Matching.{consume}

module _ {F : Type 0} ⦃f : Float F⦄ where
  -- what every lot of the engine satisfies
  pub record IsLot (l : TaxLot F) : Type 0 where
    pub quantity : IsNonneg l.remaining_quantity
    pub cost : IsPositive l.cost_basis_per_share

  -- every open lot is on one side
  abbrev pub OnSide : LotSide → TaxLot F → Type 0
  OnSide s l = is_open l ≡ true → l.side ≡ s

  module _ (laws : IsOrdered F) where
    open laws use {
      le_trans, lit_finite, nought-le-lit, sub_nonneg, sub-le, finite_between, sub_self,
    }

    -- taking a part leaves a part
    pub part-IsNonneg :
        (x q : F) → IsNonneg x → IsNonneg q → q ≼ x → IsNonneg (f.sub x q) × (f.sub x q ≼ x)
    part-IsNonneg x q hx hq le =
        let left : nought ≼ f.sub x q = sub_nonneg x q (hx.0) (hq.0) le in
        let less : f.sub x q ≼ x = sub-le x q (hx.0) (hq.1) in
        ((finite_between (f.sub x q) x left less (hx.0), left), less)

    pub fmin-IsNonneg : (x y : F) → IsNonneg x → IsNonneg y → IsNonneg (fmin x y)
    fmin-IsNonneg x y hx hy =
        let low : nought ≼ fmin x y = le-fmin laws x y nought (hx.1) (hy.1) in
        (finite_between (fmin x y) x low (fmin-le_left laws x y (hx.0)) (hx.0), low)

    closed_nought : lt dust (nought {F = F}) ≡ false
    closed_nought = ground (arith, nought-le-lit 1 8)

    pub consume-IsLot :
        (q : F) (l : TaxLot F)
        → IsLot l
        → IsNonneg q
        → q ≼ l.remaining_quantity
        → IsLot (consume q l)
    unfolding consume
    consume-IsLot q l h hq le =
        let rest = (part-IsNonneg l.remaining_quantity q h.quantity hq le).0 in
        let none_left : IsNonneg (nought {F = F}) = (lit_finite 0 0, nought-le-lit 0 0) in
        elim (Bool-cases (f.le (f.sub l.remaining_quantity q) dust)) [
          | inl e ↦ rw e (record { quantity = none_left; cost = h.cost })
          | inr e ↦ rw e (record { quantity = rest; cost = h.cost })
        ]

    pub consume_side : (q : F) (l : TaxLot F) → (consume q l).side ≡ l.side
    unfolding consume
    consume_side q l = ground arith

    -- a lot that is not open stays so
    pub consume_closed :
        (q : F) (l : TaxLot F)
        → IsLot l
        → IsNonneg q
        → q ≼ l.remaining_quantity
        → is_open l ≡ false
        → is_open (consume q l) ≡ false
    unfolding consume
    consume_closed q l h hq le c =
        let small : l.remaining_quantity ≼ dust =
          le_of_not-lt laws dust l.remaining_quantity (lit_finite 1 8) (h.quantity.0) c in
        let smaller : f.sub l.remaining_quantity q ≼ dust =
          le_trans _ _ _ ((part-IsNonneg l.remaining_quantity q h.quantity hq le).1) small in
        rw smaller closed_nought

    -- a fill that is left takes the whole lot
    pub consume_whole :
        (x : F) (l : TaxLot F)
        → IsLot l
        → IsNonneg x
        → lt dust (f.sub x (fmin l.remaining_quantity x)) ≡ true
        → is_open (consume (fmin l.remaining_quantity x) l) ≡ false
    unfolding consume
    consume_whole x l h hx left = elim (Bool-cases (lt x l.remaining_quantity)) [
      | inl e ↦
          let spent : lt dust (nought {F = F}) ≡ true = rw (e, sub_self x (hx.0)) at left in
          absurd (false≢true (sym closed_nought ∙ spent))
      | inr e ↦
          rw (e, sub_self l.remaining_quantity (h.quantity.0), nought-le-lit 1 8) closed_nought
    ]
