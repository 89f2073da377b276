-- ===== src/TaxLots/Allocate.antt =====
-- `allocate_fill` of TaxLotEngine in src/quant/execution/tax_lot.py.
use Prim.Native.String.{◌++◌ as append}
use quant_stuff.Prelude.{
  ℕ, ◌-◌, ◌==◌, leb, Bool, true, false, not, ◌&&◌, ◌||◌, Option, none, some, String, codes, List,
  [], ◌∷◌, ◌++◌, map, length, strip, is_empty, if◌then◌else◌,
}
use quant_stuff.Prelude.Dict.{insert, contains}
use quant_stuff.Float.{Float, lt, nought}
use quant_stuff.Orders.Types.{
  OrderSide, buy, sell, Result, ok, err, non_finite_ledger_input, orphaned_fill,
}
use quant_stuff.Orders.Validate.{Value, as_str}
use quant_stuff.Action.{Action, pure, get, modify, check, raise_when, ◌>>=◌, ◌>>◌}
use quant_stuff.TaxLots.{
  TaxLot, TaxLotMethod, LotSide, long, short, unopened, RealizedGainRecord, TaxLotEngine, new_lot,
  dust, lots_of, get_position, ledger_number,
}
use quant_stuff.TaxLots.Order.{sort, active_slots}
use quant_stuff.TaxLots.Matching.{Fill, Matching, match_lots}
use quant_stuff.TaxLots.Verify.{verify_inventory_conservation}

-- Upper case, for the letters of BUY and SELL: a to z, and the long s, whose upper case is S.
abbrev pub upper : ℕ → ℕ
upper c = if leb 97 c && leb c 122 then c - 32 else if c == 383 then 83 else c

abbrev pub same_codes : List ℕ → List ℕ → Bool
same_codes [] [] = true
same_codes (a ∷ xs) (b ∷ ys) = a == b && same_codes xs ys
same_codes _ _ = false

-- `side.upper().strip()`, which is BUY or SELL: upper case keeps spaces and makes none
unfoldable pub side_of : String → Result OrderSide
unfolding strip codes
side_of s =
    let word = map upper (codes (strip s)) in
    if same_codes word (codes "BUY")
    then ok buy
    else if same_codes word (codes "SELL")
    then ok sell
    else err non_finite_ledger_input

pub record FillAllocationResult (F : Type 0) : Type 0 where
  pub allocated_trades : List (RealizedGainRecord F)
  pub new_open_lots : List (TaxLot F)
  pub depleted_lots : List ℕ
  pub total_realized_pnl : F
  pub remaining_position : F

abbrev pub is_sell : OrderSide → Bool
is_sell buy = false
is_sell sell = true

-- the side of a lot that a fill opens
abbrev pub side_opened : OrderSide → LotSide
side_opened buy = long
side_opened sell = short

-- the results of the two scenarios
pub record Allocation (F : Type 0) : Type 0 where
  pub trades : List (RealizedGainRecord F)
  pub new_lots : List (TaxLot F)
  pub depleted : List ℕ
  pub pnl : F

module _ {F : Type 0} ⦃f : Float F⦄ where
  abbrev pub opened : Fill F → ℕ → LotSide → F → TaxLot F
  opened x n side quantity = record {
    lot_id = append "lot_" (x.hex n);
    portfolio_id = x.portfolio_id;
    symbol = x.symbol;
    side = side;
    open_timestamp = x.time;
    original_quantity = quantity;
    remaining_quantity = quantity;
    cost_basis_per_share = x.price;
    status = unopened;
  }

  -- `self._lots[symbol] = lots`
  abbrev pub with_lots : String → List (TaxLot F) → TaxLotEngine F → TaxLotEngine F
  with_lots symbol lots e = record e { lots = insert symbol lots e.lots }

  -- `if symbol not in self._lots: self._lots[symbol] = []`
  abbrev pub ensure : String → TaxLotEngine F → TaxLotEngine F
  ensure symbol e = if contains symbol e.lots then e else with_lots symbol [] e

  -- a new lot behind the others
  unfoldable pub open_lot : OrderSide → TaxLot F → Action (TaxLotEngine F) (List (TaxLot F))
  open_lot side lot = do
    e ← get
    raise_when (is_sell side && not e.allow_shorting) orphaned_fill
    l ← check (new_lot lot)
    modify (λ e. with_lots l.symbol (lots_of l.symbol e ++ (l ∷ [])) e)
    pure (l ∷ [])

  -- Scenario A
  unfoldable pub increase : Fill F → OrderSide → F → Action (TaxLotEngine F) (Allocation F)
  increase x side quantity = do
    new ← open_lot side (opened x 0 (side_opened side) quantity)
    pure (record { trades = []; new_lots = new; depleted = []; pnl = nought })

  abbrev pub begin_matching : List (TaxLot F) → F → Matching F
  begin_matching lots quantity = record {
    lots = lots;
    remaining_fill = quantity;
    total_pnl = nought;
    allocated_trades = [];
    depleted_lots = [];
  }

  unfoldable pub flip : Fill F → OrderSide → Matching F → Action (TaxLotEngine F) (List (TaxLot F))
  flip x side m =
      let quantity = f.round m.remaining_fill 6 in
      if lt dust m.remaining_fill
      then open_lot side (opened x (length m.allocated_trades) (side_opened side) quantity)
      else pure []

  -- Scenario B
  unfoldable pub close :
      Fill F → TaxLotMethod → OrderSide → F → Action (TaxLotEngine F) (Allocation F)
  close x method side quantity = do
    e ← get
    let lots = lots_of x.symbol e
    let m = match_lots x (sort method (active_slots 0 lots)) (begin_matching lots quantity)
    modify (with_lots x.symbol m.lots)
    new ← flip x side m
    pure (record {
      trades = m.allocated_trades;
      new_lots = new;
      depleted = m.depleted_lots;
      pnl = m.total_pnl;
    })

  unfoldable pub is_increasing : OrderSide → F → Bool
  is_increasing side position =
      (not (is_sell side) && f.le nought position) || (is_sell side && f.le position nought)

  -- `not symbol or not isinstance(symbol, str)`
  unfoldable pub ledger_text : Value F → Result String
  ledger_text v = elim (as_str v) [
    | err e ↦ err non_finite_ledger_input
    | ok s ↦ if is_empty s then err non_finite_ledger_input else ok s
  ]

  -- the fill after the checks of the arguments
  unfoldable pub settle_fill :
      (List F → F)
      → Fill F
      → TaxLotMethod
      → OrderSide
      → F
      → Action (TaxLotEngine F) (FillAllocationResult F)
  settle_fill sum x method side quantity = do
    modify (ensure x.symbol)
    e ← get
    a ←
        if is_increasing side (get_position sum x.symbol e)
        then increase x side quantity
        else close x method side quantity
    e' ← get
    check (verify_inventory_conservation sum x.symbol e')
    pure (record {
      allocated_trades = a.trades;
      new_open_lots = a.new_lots;
      depleted_lots = a.depleted;
      total_realized_pnl = f.round a.pnl 4;
      remaining_position = get_position sum x.symbol e';
    })

  -- `now` is what the clock returns
  unfoldable pub allocate_fill :
      (List F → F)
      → (ℕ → String)
      → ℕ
      → Value F
      → String
      → Value F
      → Value F
      → Option ℕ
      → Option TaxLotMethod
      → Action (TaxLotEngine F) (FillAllocationResult F)
  allocate_fill sum hex now symbol side quantity execution_price timestamp method = do
    s ← check (ledger_text symbol)
    q ← check (ledger_number quantity)
    p ← check (ledger_number execution_price)
    d ← check (side_of side)
    e ← get
    let x : Fill F = record {
      hex = hex;
      portfolio_id = e.portfolio_id;
      symbol = s;
      price = p;
      time = elim timestamp [ none ↦ now | some t ↦ t ];
    }
    settle_fill sum x (elim method [ none ↦ e.default_method | some m ↦ m ]) d q
