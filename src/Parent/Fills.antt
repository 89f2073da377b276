-- ===== src/Parent/Fills.antt =====
-- ChildFillRecord and ParentOrder of src/quant/execution/parent_order.py, less its shortfall.
use quant_stuff.Prelude.{
  ℕ, ◌-◌, Bool, none, some, String, List, [], ◌∷◌, ◌++◌, ◌&&◌, ltb, if◌then◌else◌, is_blank, strip,
  nonneg?,
}
use quant_stuff.Float.{Float, lt, nought}
use quant_stuff.Orders.Types.{
  OrderSide, Result, ok, err, ◌>>=◌, ◌>>◌, raise_if, invalid_sor_input, non_finite_sor_input,
  overflow_error, mass_conservation, algorithm_timeout,
}
use quant_stuff.Orders.Validate.{Value, as_str}

pub record ChildFillRecord (F : Type 0) : Type 0 where
  pub child_id : String
  pub quantity : F
  pub price : F
  pub fee : F
  pub timestamp_ns : ℕ
  pub spread_slippage : F

-- the arguments of a fill, of any Python type
pub record FillArgs (F : Type 0) : Type 0 where
  pub child_id : Value F
  pub quantity : Value F
  pub price : Value F
  pub fee : Value F
  pub timestamp_ns : Value F
  pub spread_slippage : Value F

pub record ParentArgs (F : Type 0) : Type 0 where
  pub parent_id : Value F
  pub symbol : Value F
  pub side : Value F
  pub total_quantity : Value F
  pub arrival_price : Value F
  pub decision_price : Value F
  pub max_duration_seconds : Value F
  pub start_time_ns : Value F

pub record ParentOrder (F : Type 0) : Type 0 where
  pub parent_id : String
  pub symbol : String
  pub side : OrderSide
  pub total_quantity : F
  pub arrival_price : F
  pub decision_price : F
  pub max_duration_seconds : F
  pub start_time_ns : ℕ
  pub child_fills : List (ChildFillRecord F)
  pub filled_quantity : F
  pub cum_notional : F
  pub total_fees : F
  pub cum_spread_slippage : F

module _ {F : Type 0} where
  -- a text that is not blank
  unfoldable pub sor_text : Value F → Result String
  unfolding as_str
  sor_text v = elim (as_str v) [
    | err e ↦ err invalid_sor_input
    | ok s ↦ if is_blank s then err invalid_sor_input else ok s
  ]

  unfoldable pub sor_side : Value F → Result OrderSide
  sor_side (Value.side_member d) = ok d
  sor_side _ = err invalid_sor_input

  -- an `int` that is no `bool` and not negative
  unfoldable pub sor_time : Value F → Result ℕ
  sor_time (Value.int n) = elim (nonneg? n) [ none ↦ err non_finite_sor_input | some t ↦ ok t ]
  sor_time _ = err non_finite_sor_input

  module _ ⦃f : Float F⦄ where
    unfoldable pub finite_sor : F → Result F
    finite_sor x = if f.is_finite x then ok x else err non_finite_sor_input

    -- an `int` or `float` that is no `bool` and finite; `isfinite` raises at a huge `int`
    unfoldable pub sor_scalar : Value F → Result F
    unfolding finite_sor
    sor_scalar (Value.flt x) = finite_sor x
    sor_scalar (Value.int n) = elim (f.of_int n) [
      | none ↦ err overflow_error
      | some x ↦ finite_sor x
    ]
    sor_scalar _ = err non_finite_sor_input

    unfoldable pub positive_sor_scalar : Value F → Result F
    unfolding sor_scalar
    positive_sor_scalar v = do x ← sor_scalar v; raise_if (f.le x nought) non_finite_sor_input; ok x

    unfoldable pub nonneg_sor_scalar : Value F → Result F
    unfolding sor_scalar
    nonneg_sor_scalar v = do x ← sor_scalar v; raise_if (lt x nought) non_finite_sor_input; ok x

    -- MASS_CONSERVATION_TOLERANCE
    abbrev pub mass_tolerance : F
    mass_tolerance = f.lit 1 7

    unfoldable pub new_child_fill : FillArgs F → Result (ChildFillRecord F)
    new_child_fill a = do
      child_id ← sor_text a.child_id
      quantity ← positive_sor_scalar a.quantity
      price ← positive_sor_scalar a.price
      fee ← nonneg_sor_scalar a.fee
      timestamp_ns ← sor_time a.timestamp_ns
      spread_slippage ← sor_scalar a.spread_slippage
      ok (record {
        child_id = child_id;
        quantity = quantity;
        price = price;
        fee = fee;
        timestamp_ns = timestamp_ns;
        spread_slippage = spread_slippage;
      })

    unfoldable pub decision_or : F → Value F → Result F
    decision_or arrival Value.null = ok arrival
    decision_or arrival v = positive_sor_scalar v

    unfoldable pub new_parent : ParentArgs F → Result (ParentOrder F)
    new_parent a = do
      parent_id ← sor_text a.parent_id
      symbol ← sor_text a.symbol
      side ← sor_side a.side
      total_quantity ← positive_sor_scalar a.total_quantity
      arrival_price ← positive_sor_scalar a.arrival_price
      decision_price ← decision_or arrival_price a.decision_price
      max_duration_seconds ← positive_sor_scalar a.max_duration_seconds
      start_time_ns ← sor_time a.start_time_ns
      ok (record {
        parent_id = strip parent_id;
        symbol = strip symbol;
        side = side;
        total_quantity = total_quantity;
        arrival_price = arrival_price;
        decision_price = decision_price;
        max_duration_seconds = max_duration_seconds;
        start_time_ns = start_time_ns;
        child_fills = [];
        filled_quantity = nought;
        cum_notional = nought;
        total_fees = nought;
        cum_spread_slippage = nought;
      })

    unfoldable pub parent_leaves : ParentOrder F → F
    parent_leaves p =
        let rem = f.sub p.total_quantity p.filled_quantity in
        if f.le rem mass_tolerance then nought else rem

    unfoldable pub is_completed : ParentOrder F → Bool
    unfolding parent_leaves
    is_completed p = f.le (parent_leaves p) mass_tolerance

    unfoldable pub average_execution_price : ParentOrder F → F
    average_execution_price p =
        if f.le p.filled_quantity mass_tolerance
        then nought
        else f.div p.cum_notional p.filled_quantity

    -- the new running totals
    unfoldable pub with_fill : ChildFillRecord F → ParentOrder F → ParentOrder F
    with_fill fill p = record p {
      child_fills = p.child_fills ++ (fill ∷ []);
      filled_quantity = f.add p.filled_quantity fill.quantity;
      cum_notional = f.add p.cum_notional (f.mul fill.quantity fill.price);
      total_fees = f.add p.total_fees fill.fee;
      cum_spread_slippage = f.add p.cum_spread_slippage fill.spread_slippage;
    }

    unfoldable pub record_child_fill :
        FillArgs F → ParentOrder F → Result (Unit {0}) × ParentOrder F
    record_child_fill a p = elim (new_child_fill a) [
      | err e ↦ (err e, p)
      | ok fill ↦
          if lt (f.add p.total_quantity mass_tolerance) (f.add p.filled_quantity fill.quantity)
          then (err mass_conservation, p)
          else if ltb 0 fill.timestamp_ns && ltb fill.timestamp_ns p.start_time_ns
          then (err invalid_sor_input, p)
          else (ok tt, with_fill fill p)
    ]

    -- the horizon in nanoseconds, where `int` raises at an infinity
    unfoldable pub max_duration_ns : ParentOrder F → Result ℕ
    max_duration_ns p = elim (f.truncate (f.mul p.max_duration_seconds (f.lit 1_000_000_000 0))) [
      | none ↦ err overflow_error
      | some n ↦ ok n
    ]

    unfoldable pub within_horizon : ℕ → ParentOrder F → Result (Unit {0})
    within_horizon elapsed p = do
      horizon ← max_duration_ns p
      raise_if (ltb horizon elapsed) algorithm_timeout

    unfoldable pub check_timeout : Value F → ParentOrder F → Result (Unit {0})
    unfolding within_horizon
    check_timeout v p = do
      now ← sor_time v
      raise_if (ltb now p.start_time_ns) invalid_sor_input
      if is_completed p then ok tt else within_horizon (now - p.start_time_ns) p
