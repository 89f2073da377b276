-- ===== src/Audit.antt =====
-- src/quant/execution/audit.py: OrderAuditLogger over a table of SQLite. The lock makes a call atomic, but
-- for the wait of `stop` for its worker.
pub mod Operations
pub mod Batches
pub mod Runs
pub mod Trail
mod Tests
use quant_stuff.Prelude.{
  ℕ, zero, suc, ◌-◌, ◌==◌, leb, ltb, Bool, true, false, not, ◌&&◌, ◌||◌, Option, none, some, String,
  str_eq, strip, codes, List, [], ◌∷◌, ◌++◌, map, keep, length, if◌then◌else◌, is_some,
}
use quant_stuff.Float.{Float}
use quant_stuff.Orders.Types.{
  ExecutionReport, Result, ok, err, ◌>>=◌, ◌>>◌ as ◌then◌, raise_if, invalid_order_input,
  gateway_disconnected, queue_full, database_error,
}
use quant_stuff.Orders.Validate.{Value, positive_scalar, side_value, state_value}
use quant_stuff.Idempotency.{positive_int, text_argument}
use quant_stuff.Action.{Action}

-- a row of `execution_reports`
pub record Row (F : Type 0) : Type 0 where
  pub report_id : String
  pub cl_ord_id : String
  pub exchange_order_id : String
  pub symbol : String
  pub side : String
  pub exec_type : String
  pub last_quantity : F
  pub last_price : F
  pub cum_quantity : F
  pub leaves_quantity : F
  pub cum_quote_amount : F
  pub average_price : F
  pub fee : F
  pub timestamp_ns : ℕ
  pub text : String

-- `stored` is what is committed to the file. An open connection sees its own table, in which rows may
-- stand that are not committed.
pub record OrderAuditLogger (F : Type 0) : Type 0 where
  pub db_path : String
  pub batch_size : ℕ
  pub flush_interval_seconds : F
  pub max_queue_size : ℕ
  pub queue : List (ExecutionReport F)
  pub conn : Option (List (Row F))
  pub has_worker : Bool
  pub is_running : Bool
  pub stored : List (Row F)

abbrev pub begins : List ℕ → List ℕ → Bool
begins [] xs = true
begins (p ∷ ps) [] = false
begins (p ∷ ps) (x ∷ xs) = p == x && begins ps xs

-- a path for which no directory is made
abbrev pub no_directory : String → Bool
no_directory path = str_eq path ":memory:" || begins (codes "file:") (codes path)

-- `makedirs` says whether the directory of a path is there or can be made
unfoldable pub new_logger :
    {F : Type 0} ⦃f : Float F⦄
    → (String → Bool)
    → Value F
    → Value F
    → Value F
    → Value F
    → Result (OrderAuditLogger F)
new_logger makedirs db_path batch_size interval max_queue_size = do
  path ← text_argument db_path
  batch ← positive_int batch_size
  seconds ← positive_scalar interval
  size ← positive_int max_queue_size
  raise_if (not (no_directory (strip path) || makedirs (strip path))) invalid_order_input
      then ok (record {
        db_path = strip path;
        batch_size = batch;
        flush_interval_seconds = seconds;
        max_queue_size = size;
        queue = [];
        conn = none;
        has_worker = false;
        is_running = false;
        stored = [];
      })

module _ {F : Type 0} where
  unfoldable pub to_row : ExecutionReport F → Row F
  to_row r = record {
    report_id = r.report_id;
    cl_ord_id = r.cl_ord_id;
    exchange_order_id = r.exchange_order_id;
    symbol = r.symbol;
    side = side_value r.side;
    exec_type = state_value r.exec_type;
    last_quantity = r.last_quantity;
    last_price = r.last_price;
    cum_quantity = r.cum_quantity;
    leaves_quantity = r.leaves_quantity;
    cum_quote_amount = r.cum_quote_amount;
    average_price = r.average_price;
    fee = r.fee;
    timestamp_ns = r.timestamp_ns;
    text = r.text;
  }
