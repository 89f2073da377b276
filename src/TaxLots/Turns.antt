-- ===== src/TaxLots/Turns.antt =====
-- `allocate_fill` of src/quant/execution/tax_lot.py takes the lots of its symbol in their turn.
use quant_stuff.Prelude.{
  ℕ, ◌≡◌, ◌⊎◌, refl, sym, ap, ◌∙◌, true, false, not, ◌&&◌, Option, none, some, String, List, [],
  ◌∷◌, ◌++◌, arith, inl, inr, Bool-cases, item, str_eq, str_eq_iff, if◌then◌else◌, zero, suc,
}
use mathlib.Core.Path.{subst}
use quant_stuff.Prelude.Dict.{contains, lookup-insert}
use quant_stuff.Float.{Float, IsOrdered, lt, IsNonneg}
use quant_stuff.Orders.Types.{OrderSide}
use quant_stuff.Orders.Validate.{Value}
use quant_stuff.Action.{Result-cases, ends, check}
use quant_stuff.TaxLots.{
  TaxLot, TaxLotMethod, TaxLotEngine, new_lot, dust, is_open, lots_of, get_position, ledger_number,
}
use quant_stuff.TaxLots.Order.{sort, active_slots}
use quant_stuff.TaxLots.Matching.{Fill, Matching, match_lots}
use quant_stuff.TaxLots.Verify.{verify_inventory_conservation}
use quant_stuff.TaxLots.Oldest.{GoesFirst, match_lots_in_turn}
use quant_stuff.TaxLots.Engine.{IsEngine, lots_of-IsBook, ensure-IsEngine}
use quant_stuff.TaxLots.Calls.{ledger_number-IsNonneg}
use quant_stuff.TaxLots.Allocate.{
  with_lots, ensure, is_sell, side_opened, open_lot, opened, increase, begin_matching, flip, close,
  is_increasing, side_of, ledger_text, settle_fill, allocate_fill,
}

item-append_left :
    {A : Type 0} (n : ℕ) (x : A) (xs ys : List A) → item n xs ≡ some x → item n (xs ++ ys) ≡ some x
item-append_left n x [] ys e = cc
item-append_left zero x (y ∷ xs) ys e = e
item-append_left (suc n) x (y ∷ xs) ys e = item-append_left n x xs ys e

module _ {F : Type 0} ⦃f : Float F⦄ where
  -- the method of a call: its own, or the engine's
  abbrev pub method_of : Option TaxLotMethod → TaxLotEngine F → TaxLotMethod
  method_of method e = elim method [ none ↦ e.default_method | some m ↦ m ]

  lots_of-with_lots :
      (k symbol : String) (lots : List (TaxLot F)) (e : TaxLotEngine F)
      → lots_of k (with_lots symbol lots e) ≡ (if str_eq symbol k then lots else lots_of k e)
  unfolding lots_of
  lots_of-with_lots k symbol lots e =
      rw (lots_of, lookup-insert symbol k lots e.lots) (ground arith)

  lots_of-ensure :
      (k symbol : String) (e : TaxLotEngine F) → lots_of k (ensure symbol e) ≡ lots_of k e
  lots_of-ensure k symbol e = elim (Bool-cases (contains symbol e.lots)) [
    | inl c ↦ rw c refl
    | inr c ↦ rw c (rw (lots_of-with_lots k symbol [] e) (ground (arith, str_eq_iff symbol k)))
  ]

  module _ (k : String) (i j : ℕ) (b : TaxLot F) where
    -- the lot at `j` is as it was, or the one at `i` is closed
    InTurn : TaxLotEngine F → Type 0
    InTurn e =
        (item j (lots_of k e) ≡ some b)
        ⊎ ((l : TaxLot F) × (item i (lots_of k e) ≡ some l) × (is_open l ≡ false))

    append-InTurn :
        (symbol : String) (new : List (TaxLot F)) (e : TaxLotEngine F)
        → InTurn e
        → InTurn (with_lots symbol (lots_of symbol e ++ new) e)
    unfolding InTurn
    append-InTurn symbol new e h =
        rw (lots_of-with_lots k symbol (lots_of symbol e ++ new) e)
          (elim (Bool-cases (str_eq symbol k)) [
            | inr other ↦ rw other h
            | inl same ↦
                let here : symbol ≡ k = (str_eq_iff symbol k).0 same in
                rw (same, here)
                  (elim h [
                    | inl kept ↦ inl (item-append_left j b (lots_of k e) new kept)
                    | inr (l, there, closed) ↦
                        inr (l, item-append_left i l (lots_of k e) new there, closed)
                  ])
          ])

    open_lot-InTurn :
        (side : OrderSide) (l : TaxLot F) (e : TaxLotEngine F)
        → InTurn e
        → InTurn (open_lot side l e).1
    unfolding open_lot
    open_lot-InTurn side l e h = elim (Bool-cases (is_sell side && not e.allow_shorting)) [
      | inl refused ↦ rw refused h
      | inr allowed ↦ elim (Result-cases (new_lot l)) [
        | inl (why, bad) ↦ rw (allowed, bad) h
        | inr (l', good) ↦ rw (allowed, good) (append-InTurn l'.symbol (l' ∷ []) e h)
      ]
    ]

    increase-InTurn :
        (x : Fill F) (side : OrderSide) (q : F) (e : TaxLotEngine F)
        → InTurn e
        → InTurn (increase x side q e).1
    unfolding increase
    increase-InTurn x side q e h =
        let lot = opened x 0 (side_opened side) q in
        let kept = open_lot-InTurn side lot e h in
        ends InTurn (open_lot side lot e) _ kept λ a r. kept

    flip-InTurn :
        (x : Fill F) (side : OrderSide) (m : Matching F) (e : TaxLotEngine F)
        → InTurn e
        → InTurn (flip x side m e).1
    unfolding flip
    flip-InTurn x side m e h = elim (Bool-cases (lt dust m.remaining_fill)) [
      | inl left ↦ rw left (open_lot-InTurn side _ e h)
      | inr nothing ↦ rw nothing h
    ]

    module _ (laws : IsOrdered F) (method : TaxLotMethod) (a : TaxLot F) (o : is_open a ≡ true)
        (first : GoesFirst method a.open_timestamp b.open_timestamp) where
      close-InTurn :
          (x : Fill F) (side : OrderSide) (q : F) (e : TaxLotEngine F)
          → IsEngine e
          → IsNonneg q
          → item i (lots_of k e) ≡ some a
          → item j (lots_of k e) ≡ some b
          → InTurn (close x method side q e).1
      unfolding close InTurn
      close-InTurn x side q e h n at_i at_j =
          let lots = lots_of x.symbol e in
          let (s, sided) = lots_of-IsBook x.symbol e h in
          let m = match_lots x (sort method (active_slots 0 lots)) (begin_matching lots q) in
          let e1 = with_lots x.symbol m.lots e in
          let matched : InTurn e1 =
            rw (lots_of-with_lots k x.symbol m.lots e) (elim (Bool-cases (str_eq x.symbol k)) [
              | inr other ↦ rw other (inl at_j)
              | inl same ↦
                  let here : k ≡ x.symbol = sym ((str_eq_iff x.symbol k).0 same) in
                  rw same (
                    match_lots_in_turn laws x s method lots i j a b
                      (subst (λ y. item i (lots_of y e) ≡ some a) here at_i)
                      (subst (λ y. item j (lots_of y e) ≡ some b) here at_j) first q sided n o)
            ]) in
          let kept = flip-InTurn x side m e1 matched in
          ends InTurn (flip x side m e1) _ kept λ c r. kept

      settle_fill-InTurn :
          (sum : List F → F) (x : Fill F) (side : OrderSide) (q : F) (e : TaxLotEngine F)
          → IsEngine e
          → IsNonneg q
          → item i (lots_of k e) ≡ some a
          → item j (lots_of k e) ≡ some b
          → InTurn (settle_fill sum x method side q e).1
      unfolding settle_fill InTurn
      settle_fill-InTurn sum x side q e h n at_i at_j =
          let e1 = ensure x.symbol e in
          let h1 = ensure-IsEngine x.symbol e h in
          let same = lots_of-ensure k x.symbol e in
          let i1 : item i (lots_of k e1) ≡ some a = ap (item i) same ∙ at_i in
          let j1 : item j (lots_of k e1) ≡ some b = ap (item j) same ∙ at_j in
          let branch =
            if is_increasing side (get_position sum x.symbol e1)
            then increase x side q
            else close x method side q in
          let kept : InTurn (branch e1).1 =
            elim (Bool-cases (is_increasing side (get_position sum x.symbol e1))) [
              | inl up ↦ rw up (increase-InTurn x side q e1 (inl j1))
              | inr down ↦ rw down (close-InTurn x side q e1 h1 n i1 j1)
            ] in
          ends InTurn (branch e1) _ kept λ c r.
            ends InTurn
              (check (verify_inventory_conservation sum x.symbol (branch e1).1) (branch e1).1) _
              kept λ _ _. kept

  -- If the rules of IEEE 754 hold and every symbol is in order, `allocate_fill` takes the open lots of a
  -- symbol in their turn, whatever its arguments are and also when it raises: of two lots of a symbol, the
  -- first of which is open and was opened before the other if the method is FIFO, and after it if it is
  -- LIFO, the other is as it was, or the first is closed.
  pub allocate_fill-in_turn :
      (laws : IsOrdered F) (sum : List F → F) (hex : ℕ → String) (now : ℕ) (symbol : Value F)
      (side : String) (quantity price : Value F) (timestamp : Option ℕ)
      (method : Option TaxLotMethod) (e : TaxLotEngine F) (k : String) (i j : ℕ) (a b : TaxLot F)
      → IsEngine e
      → item i (lots_of k e) ≡ some a
      → item j (lots_of k e) ≡ some b
      → is_open a ≡ true
      → GoesFirst (method_of method e) a.open_timestamp b.open_timestamp
      → let e' = (allocate_fill sum hex now symbol side quantity price timestamp method e).1 in
        (item j (lots_of k e') ≡ some b)
        ⊎ ((l : TaxLot F) × (item i (lots_of k e') ≡ some l) × (is_open l ≡ false))
  unfolding allocate_fill InTurn
  allocate_fill-in_turn laws sum hex now symbol side quantity price timestamp method e k i j a b h
        at_i at_j o first =
      let P = InTurn k i j b in
      ends P (check (ledger_text symbol) e) _ (inl at_j) λ s _.
        ends P (check (ledger_number quantity) e) _ (inl at_j) λ q positive.
          ends P (check (ledger_number price) e) _ (inl at_j) λ p _.
            ends P (check (side_of side) e) _ (inl at_j) λ d _.
              settle_fill-InTurn k i j b laws (method_of method e) a o first sum
                (record {
                  hex = hex;
                  portfolio_id = e.portfolio_id;
                  symbol = s;
                  price = p;
                  time = elim timestamp [ none ↦ now | some t ↦ t ];
                })
                d q e h (ledger_number-IsNonneg laws quantity q (ap (λ r. r.0) positive)) at_i at_j
