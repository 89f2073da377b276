-- ===== src/TaxLots/Calls.antt =====
-- INV-LDG-002 over the calls of `allocate_fill` in src/quant/execution/tax_lot.py.
use quant_stuff.Prelude.{
  ℕ, zero, suc, pos, negsuc, ◌≡◌, refl, ◌⊎◌, true, Option, String, List, [], ◌∷◌, map, arith, inl,
  inr, Bool-cases, Option-cases, All, All-keep, keep-All, keep_none, keep, if◌then◌else◌,
}
use mathlib.Core.Path.{subst}
use quant_stuff.Float.{Float, IsOrdered, lt, nought, IsNonneg, IsPositive}
use quant_stuff.Float.Order.{IsPositive-of_not-le}
use quant_stuff.Orders.Types.{OrderSide, buy, sell, Result, ok, err}
use quant_stuff.Orders.Validate.{Value}
use quant_stuff.Action.{Action, ends, check, continue_with}
use quant_stuff.TaxLots.{
  TaxLot, LotSide, long, short, TaxLotMethod, TaxLotEngine, dust, is_open, lots_of, remaining,
  get_position, get_open_lots, ledger_number,
}
use quant_stuff.TaxLots.Matching.{Fill}
use quant_stuff.TaxLots.Consume.{IsLot, OnSide}
use quant_stuff.TaxLots.Book.{IsSided, closed-IsSided, position_side}
use quant_stuff.TaxLots.Verify.{verify_inventory_conservation}
use quant_stuff.TaxLots.Allocate.{
  ensure, side_opened, increase, close, is_increasing, side_of, ledger_text, settle_fill,
  allocate_fill,
}
use quant_stuff.TaxLots.Engine.{
  IsEngine, lots_of-IsBook, ensure-IsEngine, increase-IsEngine, close-IsEngine,
}

module _ {F : Type 0} ⦃f : Float F⦄ where
  open_sides :
      (s : LotSide) (lots : List (TaxLot F))
      → All (OnSide s) lots
      → All (λ l. is_open l ≡ true) lots
      → All (λ l. l.side ≡ s) lots
  open_sides s [] h o = tt
  open_sides s (l ∷ lots) h o = (h.0 (o.0), open_sides s lots (h.1) (o.1))

  other_side :
      (s t : LotSide) (lots : List (TaxLot F))
      → IsSided s lots
      → (keep is_open lots ≡ []) ⊎ (s ≡ t)
      → IsSided t lots
  other_side s t lots h (inl none_open) =
      closed-IsSided t lots h.valid (keep_none is_open lots none_open)
  other_side s t lots h (inr same) = subst (λ u. IsSided u lots) same h

  told_side :
      (s : LotSide) (side : OrderSide) (lots : List (TaxLot F)) (position : F)
      → (f.le nought position ≡ true → (lots ≡ []) ⊎ (s ≡ long))
        × (f.le position nought ≡ true → (lots ≡ []) ⊎ (s ≡ short))
      → is_increasing side position ≡ true
      → (lots ≡ []) ⊎ (s ≡ side_opened side)
  unfolding is_increasing
  told_side s buy lots position told k = told.0 (ground arith)
  told_side s sell lots position told k = told.1 (ground arith)

  module _ (laws : IsOrdered F) where
    open laws use {of_int_nonneg, le_trans, nought-le-lit}

    -- what is checked does not touch the state
    check_then :
        {A B : Type 0} (r : Result A) (e : TaxLotEngine F) (k : A → Action (TaxLotEngine F) B)
        → IsEngine e
        → ((a : A) → r ≡ ok a → IsEngine (k a e).1)
        → IsEngine (continue_with (check r e) k).1
    check_then (ok a) e k h next = next a refl
    check_then (err why) e k h next = h

    pub ledger_number-IsNonneg : (v : Value F) (q : F) → ledger_number v ≡ ok q → IsNonneg q
    unfolding ledger_number
    ledger_number-IsNonneg (Value.flt x) q e = ground (arith, IsPositive-of_not-le laws x)
    ledger_number-IsNonneg (Value.int (pos (suc n))) q e =
        elim (Option-cases (f.of_int (pos (suc n)))) [
          | inl too_large ↦ ground arith
          | inr (x, found) ↦ ground (arith, of_int_nonneg (suc n) x found)
        ]
    ledger_number-IsNonneg (Value.int (pos zero)) q e = cc
    ledger_number-IsNonneg (Value.int (negsuc n)) q e = cc
    ledger_number-IsNonneg Value.null q e = cc
    ledger_number-IsNonneg (Value.str s) q e = cc
    ledger_number-IsNonneg (Value.bool b) q e = cc
    ledger_number-IsNonneg (Value.side_member b) q e = cc
    ledger_number-IsNonneg (Value.type_member b) q e = cc
    ledger_number-IsNonneg (Value.tif_member b) q e = cc
    ledger_number-IsNonneg (Value.state_member b) q e = cc
    ledger_number-IsNonneg Value.object q e = cc

    module _ (sum : List F → F)
        (sum_positive : (y : F) (ys : List F)
          → All IsPositive (y ∷ ys)
          → lt nought (sum (y ∷ ys)) ≡ true) where
      open_lot-IsPositive :
          (l : TaxLot F) → IsLot l → is_open l ≡ true → IsPositive l.remaining_quantity
      open_lot-IsPositive l v o = (
        v.quantity.0,
        ground (arith, v.quantity.1, nought-le-lit 1 8, le_trans l.remaining_quantity nought dust),
      )

      open-IsPositive :
          (lots : List (TaxLot F))
          → All IsLot lots
          → All (λ l. is_open l ≡ true) lots
          → All IsPositive (map remaining lots)
      open-IsPositive [] v o = tt
      open-IsPositive (l ∷ lots) v o =
          (open_lot-IsPositive l (v.0) (o.0), open-IsPositive lots (v.1) (o.1))

      -- a fill that increases the position is on the side of the open lots
      increasing-IsSided :
          (symbol : String) (side : OrderSide) (e : TaxLotEngine F)
          → IsEngine e
          → is_increasing side (get_position sum symbol e) ≡ true
          → IsSided (side_opened side) (lots_of symbol e)
      unfolding get_position get_open_lots
      increasing-IsSided symbol side e h k =
          let (s, sided) = lots_of-IsBook symbol e h in
          let lots = lots_of symbol e in
          let open_lots = keep is_open lots in
          let told =
            position_side laws sum sum_positive s open_lots
              (open-IsPositive open_lots (All-keep IsLot is_open lots sided.valid)
                (keep-All is_open lots))
              (open_sides s open_lots (All-keep (OnSide s) is_open lots sided.on_side)
                (keep-All is_open lots)) in
          other_side s (side_opened side) lots sided (told_side s side open_lots _ told k)

      settle_fill-IsEngine :
          (x : Fill F) (method : TaxLotMethod) (side : OrderSide) (q : F) (e : TaxLotEngine F)
          → IsEngine e
          → IsNonneg q
          → IsEngine (settle_fill sum x method side q e).1
      unfolding settle_fill
      settle_fill-IsEngine x method side q e h n =
          let e1 = ensure x.symbol e in
          let h1 = ensure-IsEngine x.symbol e h in
          let branch =
            if is_increasing side (get_position sum x.symbol e1)
            then increase x side q
            else close x method side q in
          let kept : IsEngine (branch e1).1 =
            elim (Bool-cases (is_increasing side (get_position sum x.symbol e1))) [
              | inl up ↦ rw up (
                  increase-IsEngine laws x side q e1 h1 (increasing-IsSided x.symbol side e1 h1 up))
              | inr down ↦ rw down (close-IsEngine laws x method side q e1 h1 n)
            ] in
          ends IsEngine (branch e1) _ kept λ a r.
            check_then (verify_inventory_conservation sum x.symbol (branch e1).1) (branch e1).1 _
              kept λ _ _. kept

      -- INV-LDG-002 and INV-LDG-003: If the rules of IEEE 754 hold and the sum of finite positive floats is
      -- positive, then `allocate_fill` keeps every symbol in order, whatever its arguments are and also
      -- when it raises: quantities are finite and not negative, costs are finite and positive, and the
      -- open lots of a symbol are on one side.
      pub allocate_fill-IsEngine :
          (hex : ℕ → String) (now : ℕ) (symbol : Value F) (side : String) (quantity price : Value F)
          (timestamp : Option ℕ) (method : Option TaxLotMethod) (e : TaxLotEngine F)
          → IsEngine e
          → IsEngine (allocate_fill sum hex now symbol side quantity price timestamp method e).1
      unfolding allocate_fill
      allocate_fill-IsEngine hex now symbol side quantity price timestamp method e h =
          check_then (ledger_text symbol) e _ h λ s _.
            check_then (ledger_number quantity) e _ h λ q positive.
              check_then (ledger_number price) e _ h λ p _.
                check_then (side_of side) e _ h λ d _.
                  settle_fill-IsEngine _ _ d q e h (ledger_number-IsNonneg quantity q positive)
