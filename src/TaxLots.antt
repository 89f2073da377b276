-- ===== src/TaxLots.antt =====
-- src/quant/execution/tax_lot.py: the entities of TaxLotEngine, its state and its queries.
pub mod Order
pub mod Matching
pub mod Verify
pub mod Consume
pub mod Loop
pub mod Exhaust
pub mod Sorted
pub mod Oldest
pub mod Turns
pub mod Book
pub mod Engine
pub mod Calls
mod Tests
pub mod Allocate
use quant_stuff.Prelude.{
  ℕ, zero, suc, pos, negsuc, Bool, ◌||◌, not, Option, none, some, String, List, [], ◌∷◌, ◌++◌, map,
  keep, if◌then◌else◌, is_empty,
}
use quant_stuff.Prelude.Dict.{Dict, lookup, values}
use quant_stuff.Float.{Float, lt, nought}
use quant_stuff.Orders.Types.{
  Result, ok, err, ◌>>=◌, ◌>>◌, raise_if, non_finite_ledger_input, overflow_error,
}
use quant_stuff.Orders.Validate.{Value}

pub data TaxLotMethod : Type 0 where
  fifo lifo : TaxLotMethod

pub data LotSide : Type 0 where
  long short : LotSide

pub data LotStatus : Type 0 where
  unopened partial closed : LotStatus

-- Times are whole microseconds. OPEN is `unopened`: nothing of the lot is closed yet.
pub record TaxLot (F : Type 0) : Type 0 where
  pub lot_id : String
  pub portfolio_id : String
  pub symbol : String
  pub side : LotSide
  pub open_timestamp : ℕ
  pub original_quantity : F
  pub remaining_quantity : F
  pub cost_basis_per_share : F
  pub status : LotStatus

pub record RealizedGainRecord (F : Type 0) : Type 0 where
  pub trade_id : String
  pub portfolio_id : String
  pub lot_id : String
  pub symbol : String
  pub side : String
  pub close_timestamp : ℕ
  pub quantity : F
  pub execution_price : F
  pub cost_basis : F
  pub realized_pnl : F
  pub holding_period_seconds : F

pub record TaxLotEngine (F : Type 0) : Type 0 where
  pub portfolio_id : String
  pub default_method : TaxLotMethod
  pub allow_shorting : Bool
  pub lots : Dict (List (TaxLot F))

abbrev pub new_engine : {F : Type 0} → String → TaxLotMethod → Bool → TaxLotEngine F
new_engine portfolio_id default_method allow_shorting = record {
  portfolio_id = portfolio_id;
  default_method = default_method;
  allow_shorting = allow_shorting;
  lots = [];
}

module _ {F : Type 0} ⦃f : Float F⦄ where
  -- `x <= 0.0 or not math.isfinite(x)`
  abbrev pub not_positive : F → Bool
  not_positive x = f.le x nought || not (f.is_finite x)

  -- `TaxLot(...)` and its `__post_init__`
  unfoldable pub new_lot : TaxLot F → Result (TaxLot F)
  new_lot l = do
    raise_if (not_positive l.original_quantity) non_finite_ledger_input
    raise_if (lt l.remaining_quantity nought || not (f.is_finite l.remaining_quantity))
        non_finite_ledger_input
    raise_if (not_positive l.cost_basis_per_share) non_finite_ledger_input
    ok l

  -- 1e-8
  abbrev pub dust : F
  dust = f.lit 1 8

  abbrev pub is_open : TaxLot F → Bool
  is_open l = lt dust l.remaining_quantity

  abbrev pub lots_of : String → TaxLotEngine F → List (TaxLot F)
  lots_of symbol e = elim (lookup symbol e.lots) [ none ↦ [] | some lots ↦ lots ]

  abbrev pub open_in : List (List (TaxLot F)) → List (TaxLot F)
  open_in [] = []
  open_in (lots ∷ rest) = keep is_open lots ++ open_in rest

  unfoldable pub get_open_lots : Option String → TaxLotEngine F → List (TaxLot F)
  get_open_lots none e = open_in (values e.lots)
  get_open_lots (some symbol) e = keep is_open (lots_of symbol e)

  abbrev pub remaining : TaxLot F → F
  remaining l = l.remaining_quantity

  abbrev pub signed : LotSide → F → F
  signed LotSide.long x = x
  signed LotSide.short x = f.sub nought x

  -- `sum` is the built-in sum of floats, which is compensated since Python 3.12
  abbrev pub position_of : (List F → F) → List (TaxLot F) → F
  position_of sum [] = nought
  position_of sum (l ∷ lots) = signed l.side (sum (map remaining (l ∷ lots)))

  unfoldable pub get_position : (List F → F) → String → TaxLotEngine F → F
  unfolding get_open_lots
  get_position sum symbol e = position_of sum (get_open_lots (some symbol) e)

  -- the gain of a lot at a price
  abbrev pub gain : F → TaxLot F → F
  gain price l =
      let market_val = f.mul l.remaining_quantity price in
      let cost_val = f.mul l.remaining_quantity l.cost_basis_per_share in
      elim l.side [
        | LotSide.long ↦ f.sub market_val cost_val
        | LotSide.short ↦ f.sub cost_val market_val
      ]

  abbrev pub gains : F → F → List (TaxLot F) → F
  gains price total [] = total
  gains price total (l ∷ lots) = gains price (f.add total (gain price l)) lots

  unfoldable pub get_unrealized_pnl : String → F → TaxLotEngine F → Result F
  unfolding get_open_lots
  get_unrealized_pnl symbol current_price e = do
    raise_if (not (f.is_finite current_price) || f.le current_price nought) non_finite_ledger_input
    ok (f.round (gains current_price nought (get_open_lots (some symbol) e)) 4)

  -- a number that is no `bool`: `x <= 0.0` is tested before `isfinite`, which raises at a huge `int`
  unfoldable pub ledger_number : Value F → Result F
  ledger_number (Value.flt x) = do raise_if (not_positive x) non_finite_ledger_input; ok x
  ledger_number (Value.int (pos (suc n))) = elim (f.of_int (pos (suc n))) [
    | none ↦ err overflow_error
    | some x ↦ do raise_if (not (f.is_finite x)) non_finite_ledger_input; ok x
  ]
  ledger_number _ = err non_finite_ledger_input
