-- ===== src/Gateway/Connection.antt =====
-- The construction, the session and the queries of PaperExecutionGateway in
-- src/quant/execution/gateway.py.
use quant_stuff.Prelude.{
  ℕ, pos, true, false, Option, none, some, String, List, [], ◌∷◌, map, strip, if◌then◌else◌,
}
use quant_stuff.Prelude.Dict.{Dict, lookup, values}
use quant_stuff.Float.{Float, nought}
use quant_stuff.Orders.Types.{Order, is_active, Result, ok, err, ◌>>=◌, invalid_order_input}
use quant_stuff.Orders.Validate.{Value, nonneg_scalar}
use quant_stuff.Idempotency.{Router, new_router, text_argument}
use quant_stuff.Action.{Action, modify, ◌>>◌ as ◌then◌}
use quant_stuff.Gateway.Types.{Gateway, sleep}

-- an argument that is None, an instance of the class asked for, or something else
pub data Injected (A : Type 0) : Type 0 where
  absent : Injected A
  instance_of : A → Injected A
  mismatched : Injected A

-- `x if x is not None else C()`
abbrev pub or_default : {A : Type 0} → Injected A → Result A → Result A
or_default absent d = d
or_default (instance_of a) d = ok a
or_default mismatched d = err invalid_order_input

module _ {F : Type 0} ⦃f : Float F⦄ where
  -- `IdempotencyRouter()`
  abbrev pub default_router : Result (Router F ℕ)
  default_router = new_router ℕ (Value.int (pos 10_000)) (Value.flt (f.lit 86_400 0))

  -- The state machine has no state; `store` is where the order objects are.
  unfoldable pub new_gateway :
      (ℕ → Order F)
      → Value F
      → Value F
      → Value F
      → Value F
      → Injected (Unit {0})
      → Injected (Router F ℕ)
      → Result (Gateway F)
  new_gateway store initial_balance fee_bps slippage_bps latency_ms fsm idempotency_router = do
    balance ← nonneg_scalar initial_balance
    fee ← nonneg_scalar fee_bps
    slippage ← nonneg_scalar slippage_bps
    latency ← nonneg_scalar latency_ms
    machine ← or_default fsm (ok tt)
    router ← or_default idempotency_router default_router
    ok (record {
      initial_balance = balance;
      cash = balance;
      fee_bps = fee;
      slippage_bps = slippage;
      latency_ms = latency;
      is_connected = false;
      positions = [];
      orders = [];
      market_prices = [];
      report_counter = 0;
      router = router;
      store = store;
    })

  unfoldable pub connect : (Gateway F → Gateway F) → Action (Gateway F) (Unit {0})
  connect other = sleep other then modify λ g. record g { is_connected = true }

  unfoldable pub disconnect : (Gateway F → Gateway F) → Action (Gateway F) (Unit {0})
  disconnect other = sleep other then modify λ g. record g { is_connected = false }

  unfoldable pub get_order : Value F → Gateway F → Result (Option ℕ)
  get_order id g = do s ← text_argument id; ok (lookup (strip s) g.orders)

  -- `[o for o in self._orders.values() if o.is_active]`
  unfoldable pub open_among : Gateway F → List ℕ → List ℕ
  open_among g [] = []
  open_among g (ref ∷ refs) =
      let more = open_among g refs in if is_active (g.store ref) then ref ∷ more else more

  unfoldable pub get_open_orders : Gateway F → List ℕ
  get_open_orders g = open_among g (values g.orders)

  unfoldable pub get_positions : Gateway F → Dict F
  get_positions g = g.positions

  abbrev pub valued : Gateway F → String × F → F
  valued g (sym, qty) =
      f.mul qty (elim (lookup sym g.market_prices) [ none ↦ nought | some price ↦ price ])

  -- cash and equity; `sum` is the built-in sum of floats, which is compensated since Python 3.12
  unfoldable pub get_account_balance : (List F → F) → Gateway F → F × F
  get_account_balance sum g = (g.cash, f.add g.cash (sum (map (valued g) g.positions)))
