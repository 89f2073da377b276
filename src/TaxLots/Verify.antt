-- ===== src/TaxLots/Verify.antt =====
-- `verify_inventory_conservation` of TaxLotEngine in src/quant/execution/tax_lot.py.
use quant_stuff.Prelude.{
  Bool, true, false, not, ◌&&◌, ◌||◌, Option, none, some, String, List, [], ◌∷◌, keep,
  if◌then◌else◌,
}
use quant_stuff.Float.{Float, lt, nought, absolute}
use quant_stuff.Orders.Types.{Result, ok, err, raise_if, negative_inventory}
use quant_stuff.TaxLots.{TaxLot, LotSide, long, short, TaxLotEngine, is_open, lots_of, position_of}

abbrev pub same_side : LotSide → LotSide → Bool
same_side long long = true
same_side short short = true
same_side _ _ = false

module _ {F : Type 0} ⦃f : Float F⦄ where
  -- `math.isclose(a, b, abs_tol=1e-6)`, whose relative tolerance is 1e-9
  abbrev pub isclose : F → F → Bool
  isclose a b =
      let difference = absolute (f.sub b a) in
      (f.le a b && f.le b a)
      || (f.is_finite a
          && f.is_finite b
          && (f.le difference (absolute (f.mul (f.lit 1 9) b))
              || f.le difference (absolute (f.mul (f.lit 1 9) a))
              || f.le difference (f.lit 1 6)))

  abbrev pub any_negative : List (TaxLot F) → Bool
  any_negative [] = false
  any_negative (l ∷ lots) = lt l.remaining_quantity nought || any_negative lots

  -- the sum of the loop, unless a side differs
  abbrev pub add_up : LotSide → F → List (TaxLot F) → Option F
  add_up side total [] = some total
  add_up side total (l ∷ lots) =
      let rest = add_up side (f.add total l.remaining_quantity) lots in
      if same_side l.side side then rest else none

  abbrev pub verify_sum : (List F → F) → List (TaxLot F) → Result (Unit {0})
  verify_sum sum [] = ok tt
  verify_sum sum (l ∷ lots) = elim (add_up l.side nought (l ∷ lots)) [
    | none ↦ err negative_inventory
    | some total ↦
        raise_if (not (isclose total (absolute (position_of sum (l ∷ lots))))) negative_inventory
  ]

  unfoldable pub verify_inventory_conservation :
      (List F → F) → String → TaxLotEngine F → Result (Unit {0})
  verify_inventory_conservation sum symbol e =
      if any_negative (lots_of symbol e)
      then err negative_inventory
      else verify_sum sum (keep is_open (lots_of symbol e))
