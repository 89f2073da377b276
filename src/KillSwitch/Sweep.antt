-- ===== src/KillSwitch/Sweep.antt =====
-- What a panic does to the world, in src/quant/execution/kill_switch.py: hooks, cancellations and market
-- orders against the positions. An exception of a hook or a gateway is isolated. The tasks of a
-- `gather` take their turns in the order in which they are listed.
use Prim.Native.String.{◌++◌ as append}
use quant_stuff.Prelude.{
  ℕ, suc, pos, Option, none, some, String, List, [], ◌∷◌, ◌++◌, map, if◌then◌else◌, ◌&&◌,
}
use quant_stuff.Prelude.Dict.{Dict, insert}
use quant_stuff.Float.{Float, lt, nought, absolute}
use quant_stuff.Orders.Types.{Order, OrderSide, OrderType, TimeInForce, OrderState, Result, ok, err}
use quant_stuff.Orders.Types.{◌>>=◌ as ◌bind◌}
use quant_stuff.Orders.Validate.{Value, new_order}
use quant_stuff.Idempotency.{int_text}
use quant_stuff.Action.{Action, check, pure, ◌>>=◌ as ◌and_then◌}
use quant_stuff.Risk.State.{amount}
use quant_stuff.KillSwitch.Types.{Venue}

-- a call whose exception is caught: its value, and the world it leaves
abbrev pub caught : {W A : Type 0} → Result A × W → Option A × W
caught (ok a, w) = (some a, w)
caught (err e, w) = (none, w)

unfoldable pub attempt : {W A : Type 0} → Action W A → W → Option A × W
attempt m w = caught (m w)

-- each call of a list, its exceptions caught
unfoldable pub attempt_all : {W : Type 0} → List (Action W (Unit {0})) → W → W
unfolding attempt
attempt_all [] w = w
attempt_all (m ∷ ms) w = attempt_all ms (attempt m w).1

-- what is fetched of a gateway; `none` is an exception
pub record Fetched (F W : Type 0) : Type 0 where
  pub venue : Venue F W
  pub orders : Option (List String)
  pub positions : Option (Dict F)

module _ {F W : Type 0} where
  -- `_fetch_gw_data` for each gateway
  unfoldable pub fetch_all : Dict (Venue F W) → W → List (Fetched F W) × W
  fetch_all [] w = ([], w)
  fetch_all ((id, v) ∷ gateways) w =
      let (orders, w1) = attempt v.get_open_orders w in
      let (positions, w2) = attempt v.get_positions w1 in
      let (rest, w3) = fetch_all gateways w2 in
      (record { venue = v; orders = orders; positions = positions } ∷ rest, w3)

  -- the open orders, with the gateways that they are to be cancelled at
  unfoldable pub requests : List (Fetched F W) → List (Venue F W × String)
  requests [] = []
  requests (x ∷ xs) =
      let rest = requests xs in
      elim x.orders [ none ↦ rest | some ids ↦ map (λ id. (x.venue, id)) ids ++ rest ]

  -- the cancellations, and how many of them raise no exception
  unfoldable pub cancel_all : List (Venue F W × String) → W → ℕ × W
  cancel_all [] w = (0, w)
  cancel_all ((v, id) ∷ rs) w =
      let (done, w1) = attempt (v.cancel_order id) w in
      let (count, w2) = cancel_all rs w1 in (elim done [ none ↦ count | some _ ↦ suc count ], w2)

  -- each submission, its exceptions caught
  unfoldable pub submit_all : List (Venue F W × Order F) → W → W
  submit_all orders = attempt_all (map (λ (o : Venue F W × Order F). o.0.submit_order o.1) orders)

-- `f"panic-flat-{gw_id}-{sym}-{counter}-{now_ns}"`
unfoldable pub flat_id : String → String → ℕ → ℕ → String
flat_id gw_id sym counter now = append "panic-flat-" (
    append gw_id (
      append "-" (append sym (append "-" (append (int_text counter) (append "-" (int_text now)))))))

module _ {F : Type 0} ⦃f : Float F⦄ where
  -- adds the finite positions of a gateway to the snapshot
  unfoldable pub add_positions : Dict F → Dict F → Dict F
  add_positions [] snapshot = snapshot
  add_positions ((sym, qty) ∷ positions) snapshot =
      add_positions positions (
        if f.is_finite qty then insert sym (f.add (amount sym snapshot) qty) snapshot else snapshot)

  -- `Order(...)` against a position, with the defaults of the class
  unfoldable pub flat_order : String → String → F → ℕ → ℕ → Result (Order F)
  flat_order gw_id sym qty counter now = new_order (record {
    cl_ord_id = Value.str (flat_id gw_id sym counter now);
    symbol = Value.str sym;
    side = Value.side_member (if lt nought qty then OrderSide.sell else OrderSide.buy);
    order_type = Value.type_member OrderType.market;
    quantity = Value.flt (absolute qty);
    price = Value.null;
    stop_price = Value.null;
    time_in_force = Value.tif_member TimeInForce.gtc;
    state = Value.state_member OrderState.pending_new;
    exchange_order_id = Value.null;
    filled_quantity = Value.flt nought;
    filled_quote_amount = Value.flt nought;
    average_price = Value.flt nought;
    fees_paid = Value.flt nought;
    created_at_ns = Value.int (pos now);
    updated_at_ns = Value.int (pos now);
  })

module _ {F W : Type 0} ⦃f : Float F⦄ where
  unfoldable pub snapshot_of : List (Fetched F W) → Dict F → Dict F
  snapshot_of [] snapshot = snapshot
  snapshot_of (x ∷ xs) snapshot =
      snapshot_of xs
        (elim x.positions [ none ↦ snapshot | some positions ↦ add_positions positions snapshot ])

  unfoldable pub execute_gateway_cancellations : Dict (Venue F W) → W → (ℕ × Dict F) × W
  execute_gateway_cancellations gateways w =
      let (fetched, w1) = fetch_all gateways w in
      let (count, w2) = cancel_all (requests fetched) w1 in ((count, snapshot_of fetched []), w2)

  -- The orders against the positions of a gateway, and the counter after them.
  unfoldable pub flat_orders :
      String → Venue F W → ℕ → Dict F → ℕ → Result (List (Venue F W × Order F) × ℕ)
  flat_orders gw_id v now [] counter = ok ([], counter)
  flat_orders gw_id v now ((sym, qty) ∷ positions) counter =
      let counts = f.is_finite qty && lt (f.lit 1 7) (absolute qty) in
      let counter' = if counts then suc counter else counter in
      (if counts then (flat_order gw_id sym qty counter' now bind λ o. ok ((v, o) ∷ [])) else ok [])
      bind λ here.
          flat_orders gw_id v now positions counter' bind λ rest. ok (here ++ rest.0, rest.1)

  unfoldable pub collect : ℕ → Dict (Venue F W) → ℕ → Action W (List (Venue F W × Order F))
  collect now [] counter w = (ok [], w)
  collect now ((gw_id, v) ∷ gateways) counter w =
      let (positions, w1) = attempt v.get_positions w in
      let held : Dict F = elim positions [ none ↦ [] | some d ↦ d ] in
      (check (flat_orders gw_id v now held counter) and_then λ here.
      collect now gateways here.1 and_then λ rest. pure (here.0 ++ rest))
        w1

  unfoldable pub flatten_positions : ℕ → Dict (Venue F W) → Action W (Unit {0})
  flatten_positions now gateways =
      collect now gateways 0 and_then λ orders w. (ok tt, submit_all orders w)
