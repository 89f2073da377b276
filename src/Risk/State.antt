-- ===== src/Risk/State.antt =====
-- PortfolioRiskState of src/quant/execution/risk.py: valuation, drawdown, leverage and free margin.
use quant_stuff.Prelude.{
  Bool, true, false, not, ◌&&◌, ◌||◌, Option, none, some, String, List, [], ◌∷◌, pos, negsuc, ◌==◌,
  if◌then◌else◌,
}
use quant_stuff.Prelude.Dict.{Dict, lookup, add}
use quant_stuff.Float.{Float, lt, fmax, nought, absolute}
use quant_stuff.Orders.Types.{
  Result, ok, err, non_finite_risk_input, type_error, ◌>>=◌, ◌>>◌, raise_if,
}
use quant_stuff.Orders.Validate.{Value}
use quant_stuff.Action.{Action}
use quant_stuff.Risk.Limits.{risk_scalar, positive_risk_scalar, checked_items}

pub record PortfolioRiskState (F : Type 0) : Type 0 where
  pub cash : F
  pub positions : Dict F
  pub pending_leaves : Dict F
  pub current_prices : Dict F
  pub peak_equity : F
  pub initial_equity : F

-- the arguments, with the items of the dictionaries in their order
pub record StateArgs (F : Type 0) : Type 0 where
  pub cash : Value F
  pub positions : List (Value F × Value F)
  pub pending_leaves : List (Value F × Value F)
  pub current_prices : List (Value F × Value F)
  pub peak_equity : Value F
  pub initial_equity : Value F

-- `set(d)`
unfoldable pub add_keys : {F : Type 0} → Dict F → List String → List String
add_keys [] s = s
add_keys ((k, _) ∷ d) s = add_keys d (add k s)

module _ {F : Type 0} ⦃f : Float F⦄ where
  -- `d.get(symbol, 0.0)`
  unfoldable pub amount : String → Dict F → F
  amount sym d = elim (lookup sym d) [ none ↦ nought | some x ↦ x ]

  -- `abs(x) > 1e-12`
  unfoldable pub is_held : F → Bool
  is_held x = lt (f.lit 1 12) (absolute x)

  -- the price of a symbol, which must be there and be valid
  unfoldable pub price_of : String → Dict F → Result F
  price_of sym prices = elim (lookup sym prices) [
    | none ↦ err non_finite_risk_input
    | some p ↦ if f.is_finite p && not (f.le p nought) then ok p else err non_finite_risk_input
  ]

  -- One round of the loops over positions: `price` is asked for a position that is held.
  unfoldable pub add_holding : Result F → F → F → Result F
  add_holding price position equity =
      if is_held position then (price >>= λ p. ok (f.add equity (f.mul position p))) else ok equity

  unfoldable pub equity_from : Dict F → Dict F → F → Result F
  equity_from prices [] equity = ok equity
  equity_from prices ((sym, position) ∷ positions) equity = do
    sum ← add_holding (price_of sym prices) position equity
    equity_from prices positions sum

  unfoldable pub current_equity : PortfolioRiskState F → Result F
  current_equity s = equity_from s.current_prices s.positions s.cash

  -- the drop from the peak
  unfoldable pub drawdown_of : F → F → F
  drawdown_of peak equity =
      if f.le peak nought
      then (if f.le equity nought then f.lit 1 0 else nought)
      else fmax nought (f.div (f.sub peak equity) peak)

  -- a read-only property by its name: it raises the peak
  unfoldable pub intraday_drawdown : Action (PortfolioRiskState F) F
  intraday_drawdown s = elim (current_equity s) [
    | err e ↦ (err e, s)
    | ok equity ↦
        let peak = fmax s.peak_equity equity in
        (ok (drawdown_of peak equity), record s { peak_equity = peak })
  ]

  -- `abs(position)` and pending leaves: opposite signs are netted, equal ones added
  unfoldable pub netted : Bool → F → F → F
  netted opposite position leaves =
      if opposite
      then fmax (absolute position) (absolute (f.add position leaves))
      else f.add (absolute position) (absolute leaves)

  unfoldable pub opposed : F → F → Bool
  opposed position leaves =
      (lt nought position && lt leaves nought) || (lt position nought && lt nought leaves)

  -- One round of the loops over symbols: what a symbol adds to a notional.
  unfoldable pub add_symbol : (F → F → F) → PortfolioRiskState F → String → F → Result F
  add_symbol exposure s sym total =
      let position = amount sym s.positions in
      let leaves = amount sym s.pending_leaves in
      if is_held position || is_held leaves
      then (price_of sym s.current_prices >>= λ p.
          ok (f.add total (f.mul (exposure position leaves) p)))
      else ok total

  unfoldable pub notional_from : (F → F → F) → PortfolioRiskState F → List String → F → Result F
  notional_from exposure s [] total = ok total
  notional_from exposure s (sym ∷ syms) total = do
    sum ← add_symbol exposure s sym total
    notional_from exposure s syms sum

  unfoldable pub gross_exposure : F → F → F
  unfolding netted opposed
  gross_exposure position leaves = netted (opposed position leaves) position leaves

  abbrev pub symbols : PortfolioRiskState F → List String
  symbols s = add_keys s.pending_leaves (add_keys s.positions [])

  -- `none` is infinity. `listing` is the order in which Python lists a set.
  unfoldable pub gross_leverage :
      (List String → List String) → PortfolioRiskState F → Result (Option F)
  gross_leverage listing s = do
    equity ← current_equity s
    gross ←
        if f.le equity nought
        then ok none
        else (notional_from gross_exposure s (listing (symbols s)) nought >>= λ n. ok (some n))
    ok (elim gross [ none ↦ none | some n ↦ some (f.div n equity) ])

  unfoldable pub net_leverage :
      (List String → List String) → PortfolioRiskState F → Result (Option F)
  net_leverage listing s = do
    equity ← current_equity s
    net ←
        if f.le equity nought
        then ok none
        else (notional_from f.add s (listing (symbols s)) nought >>= λ n. ok (some n))
    ok (elim net [ none ↦ none | some n ↦ some (f.div (absolute n) equity) ])

  -- sell leaves beyond the position
  unfoldable pub short_leaves : F → F → F
  short_leaves position leaves = fmax nought (f.sub (absolute leaves) (fmax nought position))

  unfoldable pub lock_at : F → F → F → F → F
  unfolding short_leaves
  lock_at position leaves price locked =
      if lt nought leaves
      then f.add locked (f.mul leaves price)
      else (if lt leaves nought
          then f.add locked (f.mul (short_leaves position leaves) price)
          else locked)

  -- One round of the loop over pending leaves.
  unfoldable pub lock : PortfolioRiskState F → String → F → F → Result F
  lock s sym leaves locked =
      if f.le (absolute leaves) (f.lit 1 12)
      then ok locked
      else (price_of sym s.current_prices >>= λ p.
          ok (lock_at (amount sym s.positions) leaves p locked))

  unfoldable pub locked_from : PortfolioRiskState F → Dict F → F → Result F
  locked_from s [] locked = ok locked
  locked_from s ((sym, leaves) ∷ pending) locked = do
    sum ← lock s sym leaves locked
    locked_from s pending sum

  unfoldable pub free_margin : PortfolioRiskState F → Result F
  free_margin s = do locked ← locked_from s s.pending_leaves nought; ok (f.sub s.cash locked)

  -- `v <= 0.0` for an argument of any type
  unfoldable pub at_most_nought : Value F → Result Bool
  at_most_nought (Value.flt x) = ok (f.le x nought)
  at_most_nought (Value.int (pos n)) = ok (n == 0)
  at_most_nought (Value.int (negsuc n)) = ok true
  at_most_nought (Value.bool b) = ok (not b)
  at_most_nought _ = err type_error

  -- the session's opening equity, if it is not given
  unfoldable pub opening_equity : Bool → Value F → F → Result F
  opening_equity true given equity = do
    raise_if (f.le equity nought) non_finite_risk_input
    ok equity
  opening_equity false given equity = positive_risk_scalar given

  unfoldable pub first_peak : Bool → Value F → F → F → Result F
  first_peak true given opening equity = ok (fmax opening equity)
  first_peak false given opening equity = do
    peak ← positive_risk_scalar given
    ok (fmax peak equity)

  unfoldable pub new_risk_state : StateArgs F → Result (PortfolioRiskState F)
  new_risk_state a = do
    cash ← risk_scalar a.cash
    positions ← checked_items risk_scalar a.positions
    pending_leaves ← checked_items risk_scalar a.pending_leaves
    current_prices ← checked_items positive_risk_scalar a.current_prices
    equity ← equity_from current_prices positions cash
    unset ← at_most_nought a.initial_equity
    initial_equity ← opening_equity unset a.initial_equity equity
    unset_peak ← at_most_nought a.peak_equity
    peak_equity ← first_peak unset_peak a.peak_equity initial_equity equity
    ok (record {
      cash = cash;
      positions = positions;
      pending_leaves = pending_leaves;
      current_prices = current_prices;
      peak_equity = peak_equity;
      initial_equity = initial_equity;
    })
