-- ===== src/Risk/Firewall/Projection.antt =====
-- What an order that works would make of a portfolio, described apart from the code of
-- src/quant/execution/risk.py: its reference price, the cash that it locks, and equity and exposures.
use quant_stuff.Prelude.{
  ◌≡◌, ◌≢◌, ◌⊎◌, Bool, true, false, ◌&&◌, ◌||◌, Option, none, some, String, List, [], ◌∷◌,
  if◌then◌else◌,
}
use quant_stuff.Prelude.Dict.{Dict, lookup}
use quant_stuff.Float.{Float, lt, fmax, nought, absolute, IsPositive, ◌≼◌}
use quant_stuff.Orders.Types.{Order, OrderSide}
use quant_stuff.Risk.State.{PortfolioRiskState, amount}

module _ {F : Type 0} ⦃f : Float F⦄ where
  -- a valid price that is noted for a symbol
  abbrev pub Noted : Dict F → String → F → Type 0
  Noted prices sym p = (lookup sym prices ≡ some p) × IsPositive p

  -- The reference price is the market's, else the order's, else the one that is noted.
  abbrev pub Referenced : Option F → Order F → PortfolioRiskState F → F → Type 0
  Referenced given order s ref =
      IsPositive ref
      × ((given ≡ some ref)
          ⊎ ((given ≡ none)
              × ((order.price ≡ some ref)
                  ⊎ ((order.price ≡ none) × (lookup order.symbol s.current_prices ≡ some ref)))))

  -- what pending buys and sells may still add and take
  abbrev pub pending_buys : F → F
  pending_buys leaves = if lt nought leaves then leaves else nought

  abbrev pub pending_sells : F → F
  pending_sells leaves = if lt leaves nought then f.sub nought leaves else nought

  -- Of a short position a buy closes what no pending buy closes, and of a long one a sell what no
  -- pending sell closes.
  unfoldable pub unclaimed : OrderSide → F → F → F
  unclaimed OrderSide.buy position leaves = f.sub (f.sub nought position) (pending_buys leaves)
  unclaimed OrderSide.sell position leaves = f.sub position (pending_sells leaves)

  -- the part of a quantity that opens a position
  abbrev pub opening : OrderSide → F → F → F → F
  opening side quantity position leaves =
      fmax nought (f.sub quantity (fmax nought (unclaimed side position leaves)))

  abbrev pub locked_cash : Order F → PortfolioRiskState F → F → F
  locked_cash order s ref =
      f.mul
        (opening order.side order.quantity (amount order.symbol s.positions)
          (amount order.symbol s.pending_leaves))
        ref

  -- the pending leaves with an order of a side
  unfoldable pub working : OrderSide → F → F → F
  working OrderSide.buy quantity leaves = f.add leaves quantity
  working OrderSide.sell quantity leaves = f.add leaves (f.sub nought quantity)

  -- A sell goes against a long position and a buy against a short one; so do leaves.
  unfoldable pub against : OrderSide → F → F → Bool
  against OrderSide.buy position leaves =
      lt position nought || (lt nought position && lt leaves nought)
  against OrderSide.sell position leaves =
      lt nought position || (lt position nought && lt nought leaves)

  -- The largest position that may come of leaves, in units: either none or all of those that go
  -- against it are filled, and all of the others are.
  abbrev pub largest : Bool → F → F → F
  largest offset position leaves =
      if offset
      then fmax (absolute position) (absolute (f.add position leaves))
      else f.add (absolute position) (absolute leaves)

  abbrev pub crossed : F → F → Bool
  crossed position leaves =
      (lt nought position && lt leaves nought) || (lt position nought && lt nought leaves)

  -- what is smaller is no position
  abbrev pub IsDust : F → Type 0
  IsDust x = absolute x ≼ f.lit 1 12

  -- sell leaves beyond a long position
  abbrev pub short_part : F → F → F
  short_part position leaves = fmax nought (f.sub (f.sub nought leaves) (fmax nought position))

  module _ (s : PortfolioRiskState F) where
    -- Positions at their noted prices and the cash before them are worth a total.
    pub data Marked : Dict F → F → F → Type 0 where
      all_marked : {total : F} → Marked [] total total
      light :
          {sym : String} {x : F} {d : Dict F} {cash total : F}
          → lt (f.lit 1 12) (absolute x) ≡ false
          → Marked d cash total
          → Marked ((sym, x) ∷ d) cash total
      heavy :
          {sym : String} {x p : F} {d : Dict F} {cash total : F}
          → lt (f.lit 1 12) (absolute x) ≡ true
          → Noted s.current_prices sym p
          → Marked d (f.add cash (f.mul x p)) total
          → Marked ((sym, x) ∷ d) cash total

    -- Pending leaves lock a total: buys all that they cost, sells what they would open.
    pub data Locked : Dict F → F → F → Type 0 where
      all_locked : {total : F} → Locked [] total total
      slight :
          {sym : String} {x : F} {d : Dict F} {sum total : F}
          → IsDust x
          → Locked d sum total
          → Locked ((sym, x) ∷ d) sum total
      buying :
          {sym : String} {x p : F} {d : Dict F} {sum total : F}
          → f.le (absolute x) (f.lit 1 12) ≡ false
          → lt nought x ≡ true
          → Noted s.current_prices sym p
          → Locked d (f.add sum (f.mul x p)) total
          → Locked ((sym, x) ∷ d) sum total
      short_selling :
          {sym : String} {x p : F} {d : Dict F} {sum total : F}
          → f.le (absolute x) (f.lit 1 12) ≡ false
          → lt x nought ≡ true
          → Noted s.current_prices sym p
          → Locked d (f.add sum (f.mul (short_part (amount sym s.positions) x) p)) total
          → Locked ((sym, x) ∷ d) sum total
      -- NaN
      undirected :
          {sym : String} {x p : F} {d : Dict F} {sum total : F}
          → f.le (absolute x) (f.lit 1 12) ≡ false
          → lt nought x ≡ false
          → lt x nought ≡ false
          → Noted s.current_prices sym p
          → Locked d sum total
          → Locked ((sym, x) ∷ d) sum total

  module _ (order : Order F) (s : PortfolioRiskState F) (ref : F) where
    abbrev pub held : String → F
    held sym = amount sym s.positions

    abbrev pub pending : String → F
    pending sym = amount sym s.pending_leaves

    abbrev pub worked : F
    worked = working order.side order.quantity (pending order.symbol)

    -- the exposure of the order's symbol once the order works, in units
    abbrev pub exposure : F
    exposure = largest (against order.side (held order.symbol) worked) (held order.symbol) worked

    -- the order's symbol is valued at the reference price
    abbrev pub Priced : String → F → Type 0
    Priced sym p =
        ((sym ≡ order.symbol) × (ref ≡ p)) ⊎ ((sym ≢ order.symbol) × Noted s.current_prices sym p)

    -- positions and the cash before them are worth a total
    pub data Worth : Dict F → F → F → Type 0 where
      all_valued : {total : F} → Worth [] total total
      dust :
          {sym : String} {x : F} {d : Dict F} {cash total : F}
          → IsDust x
          → Worth d cash total
          → Worth ((sym, x) ∷ d) cash total
      holding :
          {sym : String} {x p : F} {d : Dict F} {cash total : F}
          → f.le (absolute x) (f.lit 1 12) ≡ false
          → Priced sym p
          → Worth d (f.add cash (f.mul x p)) total
          → Worth ((sym, x) ∷ d) cash total

    -- symbols add up to a gross and a net notional
    pub data Exposed : List String → F → F → F × F → Type 0 where
      all_counted : {gross net : F} → Exposed [] gross net (gross, net)
      ordered :
          {sym : String} {syms : List String} {gross net : F} {sums : F × F}
          → sym ≡ order.symbol
          → Exposed syms
              (f.add gross (f.mul exposure ref))
              (f.add net (f.mul (f.add (held order.symbol) worked) ref))
              sums
          → Exposed (sym ∷ syms) gross net sums
      idle :
          {sym : String} {syms : List String} {gross net : F} {sums : F × F}
          → sym ≢ order.symbol
          → IsDust (held sym)
          → IsDust (pending sym)
          → Exposed syms gross net sums
          → Exposed (sym ∷ syms) gross net sums
      other :
          {sym : String} {syms : List String} {gross net p : F} {sums : F × F}
          → sym ≢ order.symbol
          → (f.le (absolute (held sym)) (f.lit 1 12) && f.le (absolute (pending sym)) (f.lit 1 12))
            ≡ false
          → Noted s.current_prices sym p
          → Exposed syms
              (f.add gross
                (f.mul (largest (crossed (held sym) (pending sym)) (held sym) (pending sym)) p))
              (f.add net (f.mul (f.add (held sym) (pending sym)) p))
              sums
          → Exposed (sym ∷ syms) gross net sums
