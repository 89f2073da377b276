-- ===== src/TaxLots/Matching.antt =====
-- The loop of `allocate_fill` of TaxLotEngine in src/quant/execution/tax_lot.py that matches a fill with
-- lots. The lots of a symbol are objects that the engine mutates in place: they are changed at their
-- places in the list of the symbol.
use Prim.Native.String.{◌++◌ as append}
use quant_stuff.Prelude.{
  ℕ, ◌-◌, leb, none, some, String, List, [], ◌∷◌, ◌++◌, length, item, change, if◌then◌else◌,
}
use quant_stuff.Float.{Float, fmin, fmax, nought}
use quant_stuff.TaxLots.{TaxLot, long, short, partial, closed, RealizedGainRecord, dust}
use quant_stuff.TaxLots.Order.{Slot}

-- what a fill is matched by: `hex` is the text of each `uuid4` that the call draws
pub record Fill (F : Type 0) : Type 0 where
  pub hex : ℕ → String
  pub portfolio_id : String
  pub symbol : String
  pub price : F
  pub time : ℕ

-- the local variables of the loop, with the lots of the symbol
pub record Matching (F : Type 0) : Type 0 where
  pub lots : List (TaxLot F)
  pub remaining_fill : F
  pub total_pnl : F
  pub allocated_trades : List (RealizedGainRecord F)
  -- their places
  pub depleted_lots : List ℕ

module _ {F : Type 0} ⦃f : Float F⦄ where
  -- `max((fill_time - open_timestamp).total_seconds(), 0.0)`
  abbrev pub held : ℕ → ℕ → F
  held fill_time open_timestamp =
      let seconds =
        if leb open_timestamp fill_time
        then f.lit (fill_time - open_timestamp) 6
        else f.sub nought (f.lit (open_timestamp - fill_time) 6) in
      fmax seconds nought

  -- the mutation of a matched lot
  unfoldable pub consume : F → TaxLot F → TaxLot F
  consume quantity l =
      let rest = f.sub l.remaining_quantity quantity in
      if f.le rest dust
      then record l { remaining_quantity = nought; status = closed }
      else record l { remaining_quantity = rest; status = partial }

  unfoldable pub trade : Fill F → ℕ → TaxLot F → F → RealizedGainRecord F × F
  trade x n l quantity =
      let cost_basis = f.mul quantity l.cost_basis_per_share in
      let exec_val = f.mul quantity x.price in
      let (side, realized) = elim l.side as (λ _. String × F) [
        | long ↦ ("SELL", f.sub exec_val cost_basis)
        | short ↦ ("COVER", f.sub cost_basis exec_val)
      ] in
      (
        record {
          trade_id = append "trd_" (x.hex n);
          portfolio_id = x.portfolio_id;
          lot_id = l.lot_id;
          symbol = x.symbol;
          side = side;
          close_timestamp = x.time;
          quantity = f.round quantity 6;
          execution_price = f.round x.price 4;
          cost_basis = f.round cost_basis 4;
          realized_pnl = f.round realized 4;
          holding_period_seconds = f.round (held x.time l.open_timestamp) 1;
        },
        realized,
      )

  -- a round of the loop, for the lot at a place
  unfoldable pub match_lot : Fill F → ℕ → TaxLot F → Matching F → Matching F
  match_lot x n l m =
      let match_qty = fmin l.remaining_quantity m.remaining_fill in
      let (record_of_trade, realized) = trade x (length m.allocated_trades) l match_qty in
      record {
        lots = change n (consume match_qty) m.lots;
        remaining_fill = f.sub m.remaining_fill match_qty;
        total_pnl = f.add m.total_pnl realized;
        allocated_trades = m.allocated_trades ++ (record_of_trade ∷ []);
        depleted_lots = m.depleted_lots ++ (n ∷ []);
      }

  abbrev pub match_at : Fill F → ℕ → Matching F → Matching F
  match_at x n m = elim (item n m.lots) [ none ↦ m | some l ↦ match_lot x n l m ]

  unfoldable pub match_lots : Fill F → List Slot → Matching F → Matching F
  match_lots x [] m = m
  match_lots x ((n, t) ∷ slots) m =
      let further = match_lots x slots (match_at x n m) in
      if f.le m.remaining_fill dust then m else further
