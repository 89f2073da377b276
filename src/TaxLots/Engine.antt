-- ===== src/TaxLots/Engine.antt =====
-- INV-LDG-002 in the two scenarios of `allocate_fill` in src/quant/execution/tax_lot.py.
use quant_stuff.Prelude.{
  ◌≡◌, true, not, ◌&&◌, String, List, [], ◌∷◌, ◌++◌, arith, inl, inr, Bool-cases, Option-cases, All,
  str_eq_iff,
}
use quant_stuff.Prelude.Dict.{lookup, values, contains, lookup-All, lookup-insert, values-insert}
use quant_stuff.Float.{Float, IsOrdered, lt, IsNonneg}
use quant_stuff.Orders.Types.{OrderSide}
use quant_stuff.Action.{ends, Result-cases}
use quant_stuff.TaxLots.{TaxLot, LotSide, long, TaxLotMethod, TaxLotEngine, new_lot, dust, lots_of}
use quant_stuff.TaxLots.Order.{sort, active_slots}
use quant_stuff.TaxLots.Matching.{Fill, Matching, match_lots}
use quant_stuff.TaxLots.Book.{IsSided, IsBook, new_lot-IsLot, append-IsSided, matched-IsSided}
use quant_stuff.TaxLots.Allocate.{
  with_lots, ensure, is_sell, side_opened, open_lot, opened, increase, begin_matching, flip, close,
}

module _ {F : Type 0} ⦃f : Float F⦄ where
  -- every symbol has a book
  abbrev pub IsEngine : TaxLotEngine F → Type 0
  IsEngine e = All IsBook (values e.lots)

  pub lots_of-IsBook :
      (symbol : String) (e : TaxLotEngine F) → IsEngine e → IsBook (lots_of symbol e)
  lots_of-IsBook symbol e h = elim (Option-cases (lookup symbol e.lots)) [
    | inl none_there ↦ rw (none_there, lots_of) (long, record { valid = tt; on_side = tt })
    | inr (lots, found) ↦ rw (found, lots_of) (lookup-All IsBook symbol lots e.lots h found)
  ]

  lots_of-with_lots :
      (symbol : String) (lots : List (TaxLot F)) (e : TaxLotEngine F)
      → lots_of symbol (with_lots symbol lots e) ≡ lots
  lots_of-with_lots symbol lots e =
      ground (arith, lookup-insert symbol symbol lots e.lots, str_eq_iff symbol symbol)

  with_lots-IsEngine :
      (symbol : String) (lots : List (TaxLot F)) (e : TaxLotEngine F)
      → IsEngine e
      → IsBook lots
      → IsEngine (with_lots symbol lots e)
  with_lots-IsEngine symbol lots e h b = values-insert IsBook symbol lots e.lots h b

  pub ensure-IsEngine :
      (symbol : String) (e : TaxLotEngine F) → IsEngine e → IsEngine (ensure symbol e)
  ensure-IsEngine symbol e h = elim (Bool-cases (contains symbol e.lots)) [
    | inl k ↦ rw k h
    | inr k ↦ rw k (with_lots-IsEngine symbol [] e h (long, record { valid = tt; on_side = tt }))
  ]

  module _ (laws : IsOrdered F) where
    open laws use {of_int_nonneg, le_trans, nought-le-lit}

    open_lot-IsEngine :
        (side : OrderSide) (l : TaxLot F) (e : TaxLotEngine F)
        → IsEngine e
        → IsSided l.side (lots_of l.symbol e)
        → IsEngine (open_lot side l e).1
    unfolding open_lot
    open_lot-IsEngine side l e h s = elim (Bool-cases (is_sell side && not e.allow_shorting)) [
      | inl refused ↦ rw refused h
      | inr allowed ↦ elim (Result-cases (new_lot l)) [
        | inl (why, bad) ↦ rw (allowed, bad) h
        | inr (l', good) ↦
            let (same, valid) = new_lot-IsLot laws l l' good in
            rw (allowed, good, same)
              (with_lots-IsEngine l.symbol (lots_of l.symbol e ++ (l ∷ [])) e h
                (l.side, append-IsSided (lots_of l.symbol e) l s (rw same at valid)))
      ]
    ]

    pub increase-IsEngine :
        (x : Fill F) (side : OrderSide) (q : F) (e : TaxLotEngine F)
        → IsEngine e
        → IsSided (side_opened side) (lots_of x.symbol e)
        → IsEngine (increase x side q e).1
    unfolding increase
    increase-IsEngine x side q e h s =
        let lot = opened x 0 (side_opened side) q in
        let kept = open_lot-IsEngine side lot e h s in
        ends IsEngine (open_lot side lot e) _ kept λ a r. kept

    flip-IsEngine :
        (x : Fill F) (side : OrderSide) (m : Matching F) (e : TaxLotEngine F)
        → IsEngine e
        → (lt dust m.remaining_fill ≡ true → (s : LotSide) → IsSided s (lots_of x.symbol e))
        → IsEngine (flip x side m e).1
    unfolding flip
    flip-IsEngine x side m e h s = elim (Bool-cases (lt dust m.remaining_fill)) [
      | inl left ↦ rw left (open_lot-IsEngine side _ e h (s left (side_opened side)))
      | inr nothing ↦ rw nothing h
    ]

    pub close-IsEngine :
        (x : Fill F) (method : TaxLotMethod) (side : OrderSide) (q : F) (e : TaxLotEngine F)
        → IsEngine e
        → IsNonneg q
        → IsEngine (close x method side q e).1
    unfolding close
    close-IsEngine x method side q e h n =
        let (s, sided) = lots_of-IsBook x.symbol e h in
        let lots = lots_of x.symbol e in
        let m = match_lots x (sort method (active_slots 0 lots)) (begin_matching lots q) in
        let (after, freed) = matched-IsSided laws s x method lots q sided n in
        let e1 = with_lots x.symbol m.lots e in
        let kept =
          flip-IsEngine x side m e1 (with_lots-IsEngine x.symbol m.lots e h (s, after))
            (λ left s'. rw (lots_of-with_lots x.symbol m.lots e) (freed left s')) in
        ends IsEngine (flip x side m e1) _ kept λ a r. kept
