-- ===== src/TaxLots/Book.antt =====
-- What `allocate_fill` of src/quant/execution/tax_lot.py keeps true of the lots, also when it raises.
use quant_stuff.Prelude.{
  ℕ, ◌+◌, ◌≡◌, refl, sym, ◌∙◌, true, false, false≢true, List, [], ◌∷◌, ◌++◌, map, arith, inl, inr,
  ◌⊎◌, Bool-cases, Option-cases, All, All-map, All-append, All-of_item, item,
}
use mathlib.Core.Path.{subst}
use mathlib.Core.Option.{some-injective}
use quant_stuff.Float.{Float, IsOrdered, lt, nought, IsNonneg, IsPositive}
use quant_stuff.Float.Order.{nonneg_of_not-lt, IsPositive-of_not-le}
use quant_stuff.Orders.Types.{ok}
use quant_stuff.TaxLots.{
  TaxLot, LotSide, long, short, TaxLotMethod, new_lot, dust, is_open, remaining, position_of,
}
use quant_stuff.TaxLots.Order.{sort, active_slots}
use quant_stuff.TaxLots.Matching.{Fill, match_lots}
use quant_stuff.TaxLots.Consume.{IsLot, OnSide}
use quant_stuff.TaxLots.Loop.{IsMatching, ClosedAt, match_lots-IsMatching, match_lots_closed}
use quant_stuff.TaxLots.Exhaust.{match_lots_closes}
use quant_stuff.TaxLots.Sorted.{sort-All, active_slots-All}
use quant_stuff.TaxLots.Allocate.{begin_matching}

zero_plus : (k : ℕ) → 0 + k ≡ k
zero_plus k = omega arith

module _ {F : Type 0} ⦃f : Float F⦄ where
  -- quantities are finite and not negative, costs are positive, and every open lot is on a side
  pub record IsSided (side : LotSide) (lots : List (TaxLot F)) : Type 0 where
    pub valid : All IsLot lots
    pub on_side : All (OnSide side) lots

  -- INV-LDG-002 as far as it is kept exactly: the open lots of a symbol are on one side
  abbrev pub IsBook : List (TaxLot F) → Type 0
  IsBook lots = (side : LotSide) × IsSided side lots

  -- lots none of which is open are on either side
  pub closed-IsSided :
      (side : LotSide) (lots : List (TaxLot F))
      → All IsLot lots
      → All (λ l. is_open l ≡ false) lots
      → IsSided side lots
  closed-IsSided side lots v c = record {
    valid = v;
    on_side = All-map _ _ (λ l k. λ o. absurd (false≢true (sym k ∙ o))) lots c;
  }

  pub append-IsSided :
      (lots : List (TaxLot F)) (l : TaxLot F)
      → IsSided l.side lots
      → IsLot l
      → IsSided l.side (lots ++ (l ∷ []))
  append-IsSided lots l h k = record {
    valid = All-append _ lots (l ∷ []) h.valid (k, tt);
    on_side = All-append _ lots (l ∷ []) h.on_side ((λ o. refl), tt);
  }

  module _ (laws : IsOrdered F) where
    open laws use {negative-lt}

    -- a lot that its constructor lets through
    pub new_lot-IsLot : (l l' : TaxLot F) → new_lot l ≡ ok l' → (l' ≡ l) × IsLot l'
    unfolding new_lot
    new_lot-IsLot l l' e = ground (
      arith,
      nonneg_of_not-lt laws l.remaining_quantity,
      IsPositive-of_not-le laws l.cost_basis_per_share,
    )

    -- a fill that is left over has closed every lot of the symbol
    all_closed :
        (s : LotSide) (x : Fill F) (method : TaxLotMethod) (lots : List (TaxLot F)) (q : F)
        → IsMatching s (begin_matching lots q)
        → let m = match_lots x (sort method (active_slots 0 lots)) (begin_matching lots q) in
          lt dust m.remaining_fill ≡ true → All (λ l. is_open l ≡ false) m.lots
    all_closed s x method lots q h left =
        let slots = sort method (active_slots 0 lots) in
        let m = match_lots x slots (begin_matching lots q) in
        let looked_at : All (λ slot. ClosedAt slot.0 m) (active_slots 0 lots) =
          sort-All method (λ slot. ClosedAt slot.0 m) (active_slots 0 lots)
            (match_lots_closes laws x s slots (begin_matching lots q) h left) in
        let stays = λ (k : ℕ) (c : ClosedAt k (begin_matching lots q)).
          match_lots_closed laws x s k slots (begin_matching lots q) h c in
        All-of_item _ m.lots λ k l e. elim (Option-cases (item k lots)) [
          | inl none_there ↦ stays k (λ l' e'. cc) l e
          | inr (l0, e0) ↦ elim (Bool-cases (is_open l0)) [
            | inl o ↦
                subst (λ n. ClosedAt n m) (zero_plus k)
                  (active_slots-All (λ n. ClosedAt n m) 0 k l0 lots looked_at e0 o) l e
            | inr c ↦ stays k (λ l' e'. rw (some-injective l' l0 (sym e' ∙ e0)) c) l e
          ]
        ]

    -- the lots after the loop, and their sides if a fill is left over
    pub matched-IsSided :
        (s : LotSide) (x : Fill F) (method : TaxLotMethod) (lots : List (TaxLot F)) (q : F)
        → IsSided s lots
        → IsNonneg q
        → let m = match_lots x (sort method (active_slots 0 lots)) (begin_matching lots q) in
          IsSided s m.lots
          × (lt dust m.remaining_fill ≡ true → (side : LotSide) → IsSided side m.lots)
    matched-IsSided s x method lots q h n =
        let begin : IsMatching s (begin_matching lots q) = record {
          lots = h.valid;
          sides = h.on_side;
          fill = n;
        } in
        let after =
          (match_lots-IsMatching laws x s (sort method (active_slots 0 lots))
            (begin_matching lots q) begin).0 in
        (
          record { valid = after.lots; on_side = after.sides },
          λ left side. closed-IsSided side _ after.lots (all_closed s x method lots q begin left),
        )

    -- The position says on which side the open lots are.
    pub position_side :
        (sum : List F → F)
        → ((y : F) (ys : List F) → All IsPositive (y ∷ ys) → lt nought (sum (y ∷ ys)) ≡ true)
        → (s : LotSide) (lots : List (TaxLot F)) → All IsPositive (map remaining lots)
        → All (λ l. l.side ≡ s) lots
        → (f.le nought (position_of sum lots) ≡ true → (lots ≡ []) ⊎ (s ≡ long))
          × (f.le (position_of sum lots) nought ≡ true → (lots ≡ []) ⊎ (s ≡ short))
    position_side sum positive s [] p k = (λ h. inl refl, λ h. inl refl)
    position_side sum positive s (l ∷ lots) p k =
        let total = positive l.remaining_quantity (map remaining lots) p in
        ground (arith, k.0, total, negative-lt (sum (map remaining (l ∷ lots))) total)
