-- ===== src/Idempotency.antt =====
-- src/quant/execution/idempotency.py: IdempotencyRouter. `R` is what stands for an order in the
-- registry of active orders. A method that raises returns the state that it leaves.
pub mod Invariant
pub mod Window
pub mod Tokens
mod Tests
use Prim.Native.Nat.{◌%◌}
use Prim.Native.String.{◌++◌ as append}
use quant_stuff.Prelude.{
  ℕ, zero, suc, ◌≡◌, refl, ◌+◌, ◌/◌, ◌==◌, ltb, leb, Bool, ◌||◌, Option, none, some, String, List,
  [], ◌∷◌, ◌++◌, length, pos, if◌then◌else◌, is_blank,
}
use quant_stuff.Prelude.Dict.{Dict, lookup, contains, insert, erase, member, add, discard}
use quant_stuff.Float.{Float}
use quant_stuff.Orders.Types.{
  OrderSide, Result, ok, err, ◌>>=◌, ◌>>◌, raise_if, invalid_order_input, duplicate_order,
  index_error,
}
use quant_stuff.Orders.Validate.{Value, as_str, as_side, timestamp, positive_scalar, side_value}

pub record Router (F R : Type 0) : Type 0 where
  pub history_capacity : ℕ
  pub ttl_seconds : F
  pub active_orders : Dict R
  pub history_ring : List String
  pub history_set : List String

-- an `int` that is no `bool` and positive
unfoldable pub positive_int : {F : Type 0} → Value F → Result ℕ
positive_int (Value.int (pos (suc n))) = ok (suc n)
positive_int _ = err invalid_order_input

-- a text that is not all space
unfoldable pub text_argument : {F : Type 0} → Value F → Result String
text_argument v = do s ← as_str v; raise_if (is_blank s) invalid_order_input; ok s

unfoldable pub new_router :
    {F : Type 0} (R : Type 0) ⦃f : Float F⦄ → Value F → Value F → Result (Router F R)
new_router R capacity ttl = do
  c ← positive_int capacity
  t ← positive_scalar ttl
  ok (record {
    history_capacity = c;
    ttl_seconds = t;
    active_orders = [];
    history_ring = [];
    history_set = [];
  })

module _ {F R : Type 0} where
  unfoldable pub active_order_count : Router F R → ℕ
  active_order_count r = length r.active_orders

  unfoldable pub history_count : Router F R → ℕ
  history_count r = length r.history_set

  -- `id in self._active_orders or id in self._history_set`
  unfoldable pub is_known : String → Router F R → Bool
  is_known id r = contains id r.active_orders || member id r.history_set

  unfoldable pub register_order : String → R → Router F R → Result (Unit {0}) × Router F R
  register_order id order r =
      if is_known id r
      then (err duplicate_order, r)
      else (ok tt, record r { active_orders = insert id order r.active_orders })

  -- `popleft` and `discard`
  unfoldable pub evict : List String → Router F R → Result (Router F R)
  evict [] r = err index_error
  evict (old ∷ ring) r =
      ok (record r { history_ring = ring; history_set = discard old r.history_set })

  -- the eviction of the oldest token from a ring that is full
  unfoldable pub make_room : Router F R → Result (Router F R)
  make_room r =
      if leb r.history_capacity (length r.history_ring) then evict r.history_ring r else ok r

  -- the token of an order that was active goes into the history
  unfoldable pub retire : String → Router F R → Result (Router F R)
  retire id r = do
    r' ← make_room r
    ok (record r' {
      history_ring = r'.history_ring ++ (id ∷ []);
      history_set = add id r'.history_set;
    })

  unfoldable pub deregister_order : String → Router F R → Result (Option R) × Router F R
  deregister_order id r =
      if is_blank id then (err invalid_order_input, r) else elim (lookup id r.active_orders) [
        | none ↦ (ok none, r)
        | some order ↦
            let popped = record r { active_orders = erase id r.active_orders } in
            elim (retire id popped) [ err e ↦ (err e, popped) | ok r' ↦ (ok (some order), r') ]
      ]

  unfoldable pub get_active_order : String → Router F R → Result (Option R)
  get_active_order id r =
      if is_blank id then err invalid_order_input else ok (lookup id r.active_orders)

  unfoldable pub is_duplicate : String → Router F R → Result Bool
  is_duplicate id r = if is_blank id then err invalid_order_input else ok (is_known id r)

  unfoldable pub clear : Router F R → Router F R
  clear r = record r { active_orders = []; history_ring = []; history_set = [] }

-- `str(n)` of an `int` that is not negative: at most `n + 1` rounds, since each divides by ten.
digit_text : ℕ → String
digit_text d =
    if d == 0
    then "0"
    else if d == 1
    then "1"
    else if d == 2
    then "2"
    else if d == 3
    then "3"
    else if d == 4
    then "4"
    else if d == 5
    then "5"
    else if d == 6
    then "6"
    else if d == 7
    then "7"
    else if d == 8
    then "8"
    else "9"

digits_text : ℕ → ℕ → String → String
unfolding digit_text
digits_text zero n rest = rest
digits_text (suc fuel) n rest =
    let longer = append (digit_text (n % 10)) rest in
    let more = digits_text fuel (n / 10) longer in if ltb n 10 then longer else more

unfoldable pub int_text : ℕ → String
unfolding digits_text
int_text n = digits_text (n + 1) n ""

int_text_sample : int_text 1030 ≡ "1030"
unfolding int_text
int_text_sample = refl

-- `name_payload`
unfoldable pub payload : String → String → OrderSide → ℕ → ℕ → String
payload strategy symbol side t nonce = append strategy (
    append ":" (
      append symbol (
        append ":" (
          append (side_value side)
            (append ":" (append (int_text t) (append ":" (int_text nonce))))))))

-- `uuid5` is the hash of a name in the namespace of the orders.
unfoldable pub generate_client_order_id :
    {F : Type 0}
    → (String → String)
    → Value F
    → Value F
    → Value F
    → Value F
    → Value F
    → Result String
generate_client_order_id uuid5 strategy symbol side t nonce = do
  strategy' ← text_argument strategy
  symbol' ← text_argument symbol
  side' ← as_side side
  t' ← timestamp t
  nonce' ← timestamp nonce
  ok (append "cl-" (uuid5 (payload strategy' symbol' side' t' nonce')))
