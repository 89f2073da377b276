-- ===== src/Risk/Limits.antt =====
-- The checks of scalars and RiskLimits of src/quant/execution/risk.py.
use quant_stuff.Prelude.{none, some, String, List, [], ◌∷◌, if◌then◌else◌, is_empty}
use quant_stuff.Prelude.Dict.{Dict}
use quant_stuff.Float.{Float, lt, nought}
use quant_stuff.Orders.Types.{
  Result, ok, err, non_finite_risk_input, overflow_error, ◌>>=◌, ◌>>◌, raise_if,
}
use quant_stuff.Orders.Validate.{Value, as_str}

pub record RiskLimits (F : Type 0) : Type 0 where
  pub max_order_notional : F
  pub max_order_qty : F
  pub max_gross_leverage : F
  pub max_net_leverage : F
  pub max_concentration_nav_pct : F
  pub max_intraday_drawdown_pct : F
  pub min_free_margin : F

-- the arguments of RiskLimits, of any Python type
pub record LimitArgs (F : Type 0) : Type 0 where
  pub max_order_notional : Value F
  pub max_order_qty : Value F
  pub max_gross_leverage : Value F
  pub max_net_leverage : Value F
  pub max_concentration_nav_pct : Value F
  pub max_intraday_drawdown_pct : Value F
  pub min_free_margin : Value F

module _ {F : Type 0} where
  -- a symbol: a text that is not empty
  unfoldable pub risk_symbol : Value F → Result String
  unfolding as_str
  risk_symbol v = elim (as_str v) [
    | err e ↦ err non_finite_risk_input
    | ok s ↦ if is_empty s then err non_finite_risk_input else ok s
  ]

  module _ ⦃f : Float F⦄ where
    unfoldable pub finite_or_raise : F → Result F
    finite_or_raise x = if f.is_finite x then ok x else err non_finite_risk_input

    -- an `int` or `float` that is no `bool` and finite; `float` raises at a huge `int`
    unfoldable pub risk_scalar : Value F → Result F
    unfolding finite_or_raise
    risk_scalar (Value.flt x) = finite_or_raise x
    risk_scalar (Value.int n) = elim (f.of_int n) [
      | none ↦ err overflow_error
      | some x ↦ finite_or_raise x
    ]
    risk_scalar _ = err non_finite_risk_input

    unfoldable pub positive_risk_scalar : Value F → Result F
    unfolding risk_scalar
    positive_risk_scalar v = do
      x ← risk_scalar v
      raise_if (f.le x nought) non_finite_risk_input
      ok x

    unfoldable pub nonneg_risk_scalar : Value F → Result F
    unfolding risk_scalar
    nonneg_risk_scalar v = do x ← risk_scalar v; raise_if (lt x nought) non_finite_risk_input; ok x

    unfoldable pub new_limits : LimitArgs F → Result (RiskLimits F)
    new_limits a = do
      max_order_notional ← positive_risk_scalar a.max_order_notional
      max_order_qty ← positive_risk_scalar a.max_order_qty
      max_gross_leverage ← positive_risk_scalar a.max_gross_leverage
      max_net_leverage ← positive_risk_scalar a.max_net_leverage
      max_concentration_nav_pct ← positive_risk_scalar a.max_concentration_nav_pct
      max_intraday_drawdown_pct ← positive_risk_scalar a.max_intraday_drawdown_pct
      min_free_margin ← nonneg_risk_scalar a.min_free_margin
      ok (record {
        max_order_notional = max_order_notional;
        max_order_qty = max_order_qty;
        max_gross_leverage = max_gross_leverage;
        max_net_leverage = max_net_leverage;
        max_concentration_nav_pct = max_concentration_nav_pct;
        max_intraday_drawdown_pct = max_intraday_drawdown_pct;
        min_free_margin = min_free_margin;
      })

    -- the loop that checks a dictionary: every key is a symbol and every item a scalar
    unfoldable pub checked_items : (Value F → Result F) → List (Value F × Value F) → Result (Dict F)
    unfolding risk_symbol
    checked_items number [] = ok []
    checked_items number ((k, v) ∷ items) = do
      sym ← risk_symbol k
      x ← number v
      rest ← checked_items number items
      ok ((sym, x) ∷ rest)
