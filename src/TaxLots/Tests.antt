-- ===== src/TaxLots/Tests.antt =====
-- The tax-lot engine at concrete values.
use quant_stuff.Prelude.{
  ℕ, ◌<◌, ◌≡◌, refl, true, false, none, some, String, List, [], ◌∷◌, ◌⊎◌, arith, All, item,
}
use quant_stuff.Prelude.Dict.{lookup, insert, values}
use quant_stuff.Float.{Fixed, Fixed-IsOrdered, decimal, fixed_float, lt, nought, ◌≼◌, IsPositive}
use quant_stuff.Orders.Types.{Result, err, non_finite_ledger_input, orphaned_fill}
use quant_stuff.Orders.Validate.{Value, as_str}
use quant_stuff.TaxLots.{
  TaxLot, long, fifo, lifo, LotStatus, TaxLotEngine, new_engine, new_lot, get_position,
  get_open_lots, ledger_number, lots_of, is_open,
}
use quant_stuff.TaxLots.Order.{Slot, sort, active_slots}
use quant_stuff.TaxLots.Matching.{Fill, Matching, consume, trade, match_lot, match_lots}
use quant_stuff.TaxLots.Loop.{IsMatching, ClosedAt}
use quant_stuff.TaxLots.Exhaust.{match_lots_in_order}
use quant_stuff.TaxLots.Verify.{verify_inventory_conservation}
use quant_stuff.TaxLots.Allocate.{
  open_lot, increase, flip, close, is_increasing, side_of, ledger_text, settle_fill, allocate_fill,
  begin_matching, FillAllocationResult,
}
use quant_stuff.TaxLots.Engine.{IsEngine}
use quant_stuff.TaxLots.Turns.{allocate_fill-in_turn}
use quant_stuff.TaxLots.Calls.{allocate_fill-IsEngine}

abbrev total : List Fixed → Fixed
total [] = nought
total (x ∷ xs) = fixed_float.add x (total xs)

total_nonneg : (xs : List Fixed) → All IsPositive xs → nought ≼ total xs
total_nonneg [] h = refl
total_nonneg (x ∷ xs) h = ground (arith, h.0, total_nonneg xs (h.1))

total_positive :
    (x : Fixed) (xs : List Fixed) → All IsPositive (x ∷ xs) → lt nought (total (x ∷ xs)) ≡ true
total_positive x xs h = ground (arith, h.0, total_nonneg xs (h.1))

abbrev hex : ℕ → String
hex n = "0f"

-- ten units, bought at 25
abbrev lot : TaxLot Fixed
lot = record {
  lot_id = "lot_0f";
  portfolio_id = "p";
  symbol = "AAPL";
  side = long;
  open_timestamp = 5;
  original_quantity = decimal 10 0;
  remaining_quantity = decimal 10 0;
  cost_basis_per_share = decimal 25 0;
  status = LotStatus.unopened;
}

abbrev holding : TaxLotEngine Fixed
holding = record (new_engine "p" fifo false) { lots = ("AAPL", lot ∷ []) ∷ [] }

holding-IsEngine : IsEngine holding
unfolding values
holding-IsEngine = (
  (
    long,
    record {
      valid = (record { quantity = (refl, refl); cost = (refl, refl) }, tt);
      on_side = ((λ o. refl), tt);
    },
  ),
  tt,
)

abbrev Outcome : Type 0
Outcome = Result (FillAllocationResult Fixed) × TaxLotEngine Fixed

-- the sale of some units at 26
abbrev sale : Fixed → TaxLotEngine Fixed → Outcome
sale quantity e =
    allocate_fill total hex 9 (Value.str "AAPL") " sell" (Value.flt quantity)
      (Value.flt (decimal 26 0)) none none e

allocate_fill-IsEngine_example : IsEngine (sale (decimal 4 0) holding).1
allocate_fill-IsEngine_example =
    allocate_fill-IsEngine Fixed-IsOrdered total total_positive hex 9 (Value.str "AAPL") " sell"
      (Value.flt (decimal 4 0)) (Value.flt (decimal 26 0)) none none holding holding-IsEngine

sold : get_position total "AAPL" (sale (decimal 4 0) holding).1 ≡ decimal 6 0
unfolding allocate_fill ledger_text ledger_number side_of settle_fill is_increasing increase close
    flip open_lot new_lot get_position get_open_lots sort active_slots match_lots match_lot consume
    trade verify_inventory_conservation lookup insert values as_str
sold = refl

-- A sale that exceeds the holding by less than 5e-7 raises with shorting allowed, since the rounded rest
-- is no quantity, and the lot is closed nevertheless.
residue :
    let outcome = sale (decimal 10 10) (record holding { allow_shorting = true }) in
    (outcome.0 ≡ err non_finite_ledger_input) × (get_position total "AAPL" outcome.1 ≡ decimal 0 0)
unfolding allocate_fill ledger_text ledger_number side_of settle_fill is_increasing increase close
    flip open_lot new_lot get_position get_open_lots sort active_slots match_lots match_lot consume
    trade verify_inventory_conservation lookup insert values as_str
residue = (refl, refl)

-- A sale that exceeds the holding raises with shorting disabled, and the lot is closed nevertheless.
orphaned :
    let outcome = sale (decimal 11 0) holding in
    (outcome.0 ≡ err orphaned_fill) × (get_position total "AAPL" outcome.1 ≡ decimal 0 0)
unfolding allocate_fill ledger_text ledger_number side_of settle_fill is_increasing increase close
    flip open_lot new_lot get_position get_open_lots sort active_slots match_lots match_lot consume
    trade verify_inventory_conservation lookup insert values as_str
orphaned = (refl, refl)

abbrev slots : List Slot
slots = (0, 7) ∷ (1, 5) ∷ (2, 7) ∷ []

lifo_sample : sort lifo slots ≡ (0, 7) ∷ (2, 7) ∷ (1, 5) ∷ []
unfolding sort
lifo_sample = refl

-- a second lot, opened later
abbrev later_lot : TaxLot Fixed
later_lot = record lot { lot_id = "lot_10"; open_timestamp = 7 }

abbrev two_lots : TaxLotEngine Fixed
two_lots = record holding { lots = ("AAPL", lot ∷ later_lot ∷ []) ∷ [] }

two_lots-IsEngine : IsEngine two_lots
unfolding values
two_lots-IsEngine = (
  (
    long,
    record {
      valid = (
        record { quantity = (refl, refl); cost = (refl, refl) },
        (record { quantity = (refl, refl); cost = (refl, refl) }, tt),
      );
      on_side = ((λ o. refl), ((λ o. refl), tt));
    },
  ),
  tt,
)

in_place_0 : item 0 (lots_of "AAPL" two_lots) ≡ some lot
unfolding lookup
in_place_0 = refl

in_place_1 : item 1 (lots_of "AAPL" two_lots) ≡ some later_lot
unfolding lookup
in_place_1 = refl

first_in_first_out : 5 < 7
first_in_first_out = omega arith

-- A sale of four takes them from the older lot, since the engine's method is FIFO.
allocate_fill-in_turn_example :
    (item 1 (lots_of "AAPL" (sale (decimal 4 0) two_lots).1) ≡ some later_lot)
    ⊎ ((l : TaxLot Fixed) × (item 0 (lots_of "AAPL" (sale (decimal 4 0) two_lots).1) ≡ some l)
        × (is_open l ≡ false))
allocate_fill-in_turn_example =
    allocate_fill-in_turn Fixed-IsOrdered total hex 9 (Value.str "AAPL") " sell"
      (Value.flt (decimal 4 0)) (Value.flt (decimal 26 0)) none none two_lots "AAPL" 0 1 lot
      later_lot two_lots-IsEngine in_place_0 in_place_1 refl first_in_first_out

abbrev fill : Fill Fixed
fill = record { hex = hex; portfolio_id = "p"; symbol = "AAPL"; price = decimal 26 0; time = 9 }

-- two lots, and twelve units to sell
abbrev before : Matching Fixed
before = begin_matching (lot ∷ record lot { open_timestamp = 7 } ∷ []) (decimal 12 0)

before-IsMatching : IsMatching long before
before-IsMatching = record {
  lots = (
    record { quantity = (refl, refl); cost = (refl, refl) },
    (record { quantity = (refl, refl); cost = (refl, refl) }, tt),
  );
  sides = ((λ o. refl), ((λ o. refl), tt));
  fill = (refl, refl);
}

match_lots_in_order_example :
    (match_lots fill ((0, 5) ∷ (1, 7) ∷ []) before ≡ match_lots fill ((0, 5) ∷ []) before)
    ⊎ All (λ (slot : Slot). ClosedAt slot.0 (match_lots fill ((0, 5) ∷ []) before)) ((0, 5) ∷ [])
match_lots_in_order_example =
    match_lots_in_order Fixed-IsOrdered fill long ((0, 5) ∷ []) ((1, 7) ∷ []) before
      before-IsMatching
