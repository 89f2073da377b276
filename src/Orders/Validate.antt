-- ===== src/Orders/Validate.antt =====
-- `__post_init__` of Order and of ExecutionReport in src/quant/execution/models.py, over arguments of
-- any Python type. A passed order or report holds the numbers that the checks let through.
pub mod Bounds
pub mod Accepts
use quant_stuff.Prelude.{
  ℕ, Bool, Option, none, some, String, ℤ, pos, if◌then◌else◌, is_empty, nonneg?,
}
use quant_stuff.Float.{Float, lt, nought}
use quant_stuff.Orders.Types.{
  Order, ExecutionReport, OrderState, OrderSide, OrderType, TimeInForce, Result, ok, err, ◌>>=◌,
  ◌>>◌, raise_if, invalid_order_input, overflow_error,
}

-- A Python value by what the checks ask of it. Members of a StrEnum are texts as well.
pub data Value (F : Type 0) : Type 0 where
  null : Value F
  str : String → Value F
  int : ℤ → Value F
  flt : F → Value F
  bool : Bool → Value F
  side_member : OrderSide → Value F
  type_member : OrderType → Value F
  tif_member : TimeInForce → Value F
  state_member : OrderState → Value F
  object : Value F

abbrev pub side_value : OrderSide → String
side_value OrderSide.buy = "BUY"
side_value OrderSide.sell = "SELL"

abbrev pub type_value : OrderType → String
type_value OrderType.market = "MARKET"
type_value OrderType.limit = "LIMIT"
type_value OrderType.stop_limit = "STOP_LIMIT"
type_value OrderType.pegged = "PEGGED"

abbrev pub tif_value : TimeInForce → String
tif_value TimeInForce.day = "DAY"
tif_value TimeInForce.gtc = "GTC"
tif_value TimeInForce.ioc = "IOC"
tif_value TimeInForce.fok = "FOK"

abbrev pub state_value : OrderState → String
state_value OrderState.pending_new = "PENDING_NEW"
state_value OrderState.new = "NEW"
state_value OrderState.partially_filled = "PARTIALLY_FILLED"
state_value OrderState.filled = "FILLED"
state_value OrderState.pending_cancel = "PENDING_CANCEL"
state_value OrderState.cancelled = "CANCELLED"
state_value OrderState.rejected = "REJECTED"
state_value OrderState.expired = "EXPIRED"

module _ {F : Type 0} where
  -- `isinstance(v, str)`
  unfoldable pub as_str : Value F → Result String
  as_str (str s) = ok s
  as_str (side_member s) = ok (side_value s)
  as_str (type_member k) = ok (type_value k)
  as_str (tif_member t) = ok (tif_value t)
  as_str (state_member s) = ok (state_value s)
  as_str _ = err invalid_order_input

  unfoldable pub non_empty_str : Value F → Result String
  unfolding as_str
  non_empty_str v = do s ← as_str v; raise_if (is_empty s) invalid_order_input; ok s

  unfoldable pub optional_str : Value F → Result (Option String)
  unfolding as_str
  optional_str null = ok none
  optional_str v = do s ← as_str v; ok (some s)

  unfoldable pub as_side : Value F → Result OrderSide
  as_side (side_member s) = ok s
  as_side _ = err invalid_order_input

  unfoldable pub as_type : Value F → Result OrderType
  as_type (type_member k) = ok k
  as_type _ = err invalid_order_input

  unfoldable pub as_tif : Value F → Result TimeInForce
  as_tif (tif_member t) = ok t
  as_tif _ = err invalid_order_input

  unfoldable pub as_state : Value F → Result OrderState
  as_state (state_member s) = ok s
  as_state _ = err invalid_order_input

  -- an `int` that is no `bool` and not negative
  unfoldable pub timestamp : Value F → Result ℕ
  timestamp (int n) = elim (nonneg? n) [ none ↦ err invalid_order_input | some t ↦ ok t ]
  timestamp _ = err invalid_order_input

  module _ ⦃f : Float F⦄ where
    unfoldable pub finite : F → Result F
    finite x = if f.is_finite x then ok x else err invalid_order_input

    -- an `int` or `float` that is no `bool` and finite; `isfinite` raises at a huge `int`
    unfoldable pub scalar : Value F → Result F
    unfolding finite
    scalar (flt x) = finite x
    scalar (int n) = elim (f.of_int n) [ none ↦ err overflow_error | some x ↦ finite x ]
    scalar _ = err invalid_order_input

    unfoldable pub positive_scalar : Value F → Result F
    unfolding scalar
    positive_scalar v = do x ← scalar v; raise_if (f.le x nought) invalid_order_input; ok x

    unfoldable pub nonneg_scalar : Value F → Result F
    unfolding scalar
    nonneg_scalar v = do x ← scalar v; raise_if (lt x nought) invalid_order_input; ok x

    unfoldable pub optional_price : Value F → Result (Option F)
    unfolding positive_scalar
    optional_price null = ok none
    optional_price v = do x ← positive_scalar v; ok (some x)

pub record OrderArgs (F : Type 0) : Type 0 where
  pub cl_ord_id : Value F
  pub symbol : Value F
  pub side : Value F
  pub order_type : Value F
  pub quantity : Value F
  pub price : Value F
  pub stop_price : Value F
  pub time_in_force : Value F
  pub state : Value F
  pub exchange_order_id : Value F
  pub filled_quantity : Value F
  pub filled_quote_amount : Value F
  pub average_price : Value F
  pub fees_paid : Value F
  pub created_at_ns : Value F
  pub updated_at_ns : Value F

pub record ReportArgs (F : Type 0) : Type 0 where
  pub report_id : Value F
  pub cl_ord_id : Value F
  pub exchange_order_id : Value F
  pub symbol : Value F
  pub side : Value F
  pub exec_type : Value F
  pub last_quantity : Value F
  pub last_price : Value F
  pub cum_quantity : Value F
  pub leaves_quantity : Value F
  pub cum_quote_amount : Value F
  pub average_price : Value F
  pub fee : Value F
  pub timestamp_ns : Value F
  pub text : Value F

module _ {F : Type 0} ⦃f : Float F⦄ where
  unfoldable pub new_order : OrderArgs F → Result (Order F)
  new_order a = do
    cl_ord_id ← non_empty_str a.cl_ord_id
    symbol ← non_empty_str a.symbol
    exchange_order_id ← optional_str a.exchange_order_id
    side ← as_side a.side
    order_type ← as_type a.order_type
    time_in_force ← as_tif a.time_in_force
    state ← as_state a.state
    quantity ← positive_scalar a.quantity
    price ← optional_price a.price
    stop_price ← optional_price a.stop_price
    filled_quantity ← nonneg_scalar a.filled_quantity
    filled_quote_amount ← nonneg_scalar a.filled_quote_amount
    average_price ← nonneg_scalar a.average_price
    fees_paid ← nonneg_scalar a.fees_paid
    created_at_ns ← timestamp a.created_at_ns
    updated_at_ns ← timestamp a.updated_at_ns
    ok (record {
      cl_ord_id = cl_ord_id;
      symbol = symbol;
      side = side;
      order_type = order_type;
      quantity = quantity;
      price = price;
      stop_price = stop_price;
      time_in_force = time_in_force;
      state = state;
      exchange_order_id = exchange_order_id;
      filled_quantity = filled_quantity;
      filled_quote_amount = filled_quote_amount;
      average_price = average_price;
      fees_paid = fees_paid;
      created_at_ns = created_at_ns;
      updated_at_ns = updated_at_ns;
    })

  unfoldable pub new_report : ReportArgs F → Result (ExecutionReport F)
  new_report a = do
    report_id ← non_empty_str a.report_id
    cl_ord_id ← non_empty_str a.cl_ord_id
    exchange_order_id ← as_str a.exchange_order_id
    symbol ← non_empty_str a.symbol
    text ← as_str a.text
    side ← as_side a.side
    exec_type ← as_state a.exec_type
    last_quantity ← nonneg_scalar a.last_quantity
    last_price ← nonneg_scalar a.last_price
    cum_quantity ← nonneg_scalar a.cum_quantity
    leaves_quantity ← nonneg_scalar a.leaves_quantity
    cum_quote_amount ← nonneg_scalar a.cum_quote_amount
    average_price ← nonneg_scalar a.average_price
    fee ← nonneg_scalar a.fee
    timestamp_ns ← timestamp a.timestamp_ns
    ok (record {
      report_id = report_id;
      cl_ord_id = cl_ord_id;
      exchange_order_id = exchange_order_id;
      symbol = symbol;
      side = side;
      exec_type = exec_type;
      last_quantity = last_quantity;
      last_price = last_price;
      cum_quantity = cum_quantity;
      leaves_quantity = leaves_quantity;
      cum_quote_amount = cum_quote_amount;
      average_price = average_price;
      fee = fee;
      timestamp_ns = timestamp_ns;
      text = text;
    })

-- The arguments that name an entity's own fields.
abbrev pub optional_value : {F A : Type 0} → (A → Value F) → Option A → Value F
optional_value g none = Value.null
optional_value g (some a) = g a

abbrev pub order_args : {F : Type 0} → Order F → OrderArgs F
order_args o = record {
  cl_ord_id = Value.str o.cl_ord_id;
  symbol = Value.str o.symbol;
  side = Value.side_member o.side;
  order_type = Value.type_member o.order_type;
  quantity = Value.flt o.quantity;
  price = optional_value Value.flt o.price;
  stop_price = optional_value Value.flt o.stop_price;
  time_in_force = Value.tif_member o.time_in_force;
  state = Value.state_member o.state;
  exchange_order_id = optional_value Value.str o.exchange_order_id;
  filled_quantity = Value.flt o.filled_quantity;
  filled_quote_amount = Value.flt o.filled_quote_amount;
  average_price = Value.flt o.average_price;
  fees_paid = Value.flt o.fees_paid;
  created_at_ns = Value.int (pos o.created_at_ns);
  updated_at_ns = Value.int (pos o.updated_at_ns);
}

abbrev pub report_args : {F : Type 0} → ExecutionReport F → ReportArgs F
report_args r = record {
  report_id = Value.str r.report_id;
  cl_ord_id = Value.str r.cl_ord_id;
  exchange_order_id = Value.str r.exchange_order_id;
  symbol = Value.str r.symbol;
  side = Value.side_member r.side;
  exec_type = Value.state_member r.exec_type;
  last_quantity = Value.flt r.last_quantity;
  last_price = Value.flt r.last_price;
  cum_quantity = Value.flt r.cum_quantity;
  leaves_quantity = Value.flt r.leaves_quantity;
  cum_quote_amount = Value.flt r.cum_quote_amount;
  average_price = Value.flt r.average_price;
  fee = Value.flt r.fee;
  timestamp_ns = Value.int (pos r.timestamp_ns);
  text = Value.str r.text;
}
