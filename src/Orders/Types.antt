-- ===== src/Orders/Types.antt =====
-- The enums, entities and exceptions of src/quant/execution/models.py.
use quant_stuff.Prelude.{
  ◌≡◌, refl, ℕ, Bool, true, false, Option, none, some, String, ◌==◌, if◌then◌else◌,
}
use quant_stuff.Float.{Float, nought, fmax}

pub data OrderState : Type 0 where
  pending_new new partially_filled filled pending_cancel cancelled rejected expired : OrderState

pub data OrderSide : Type 0 where
  buy sell : OrderSide

pub data OrderType : Type 0 where
  market limit stop_limit pegged : OrderType

pub data TimeInForce : Type 0 where
  day gtc ioc fok : TimeInForce

-- the place of a member in its enum
abbrev pub index : OrderState → ℕ
index pending_new = 0
index new = 1
index partially_filled = 2
index filled = 3
index pending_cancel = 4
index cancelled = 5
index rejected = 6
index expired = 7

-- `a == b`
abbrev pub same_state : OrderState → OrderState → Bool
same_state a b = index a == index b

-- The exceptions: a subclass of GatewayError each, of TaxLotError in src/quant/execution/tax_lot.py, of
-- RiskError in src/quant/execution/risk.py and kill_switch.py, of SORError in src/quant/execution/venues.py,
-- and those of Python and of sqlite3 that escape.
pub data Error : Type 0 where
  invalid_state_transition duplicate_order invalid_order_input insufficient_margin : Error
  gateway_disconnected rate_limit_exceeded overflow_error assertion_error : Error
  index_error : Error
  negative_inventory orphaned_fill non_finite_ledger_input : Error
  queue_full database_error : Error
  non_finite_risk_input drawdown_limit_exceeded fat_finger_quantity fat_finger_notional : Error
  insufficient_margin_risk leverage_limit_exceeded concentration_limit_exceeded : Error
  kill_switch_active kill_switch_disarmed invalid_admin_token : Error
  type_error value_error key_error timeout_error : Error
  invalid_sor_input non_finite_sor_input invalid_schedule mass_conservation : Error
  insufficient_liquidity algorithm_timeout zero_division_error : Error

-- `code` of an error of the program
unfoldable pub code : Error → Option String
code invalid_state_transition = some "ERR-GW-001"
code duplicate_order = some "ERR-GW-002"
code invalid_order_input = some "ERR-GW-003"
code insufficient_margin = some "ERR-GW-004"
code gateway_disconnected = some "ERR-GW-005"
code rate_limit_exceeded = some "ERR-GW-006"
code overflow_error = none
code assertion_error = none
code index_error = none
code queue_full = none
code database_error = none
code negative_inventory = some "ERR-LDG-001"
code orphaned_fill = some "ERR-LDG-002"
code non_finite_ledger_input = some "ERR-LDG-005"
code fat_finger_notional = some "ERR-RSK-001"
code fat_finger_quantity = some "ERR-RSK-002"
code leverage_limit_exceeded = some "ERR-RSK-003"
code concentration_limit_exceeded = some "ERR-RSK-004"
code insufficient_margin_risk = some "ERR-RSK-005"
code drawdown_limit_exceeded = some "ERR-RSK-006"
code non_finite_risk_input = some "ERR-RSK-007"
code kill_switch_active = some "ERR-RSK-008"
code invalid_admin_token = some "ERR-RSK-009"
code kill_switch_disarmed = some "ERR-RSK-010"
code type_error = none
code value_error = none
code key_error = none
code timeout_error = none
code zero_division_error = none
code insufficient_liquidity = some "ERR-SOR-002"
code invalid_schedule = some "ERR-SOR-001"
code mass_conservation = some "ERR-SOR-004"
code algorithm_timeout = some "ERR-SOR-006"
code invalid_sor_input = some "ERR-SOR-007"
code non_finite_sor_input = some "ERR-SOR-007"

pub data Result {ℓ} (A : Type ℓ) : Type ℓ where
  ok : A → Result A
  err : Error → Result A

infixl 5 ◌>>=◌ ◌>>◌
abbrev pub ◌>>=◌ {ℓ κ} : {A : Type ℓ} {B : Type κ} → Result A → (A → Result B) → Result B
ok a >>= g = g a
err e >>= g = err e

abbrev pub ◌>>◌ {ℓ} : {B : Type ℓ} → Result (Unit {0}) → Result B → Result B
m >> k = m >>= λ _. k

-- `if c: raise e`
abbrev pub raise_if : Bool → Error → Result (Unit {0})
raise_if true e = err e
raise_if false e = ok tt

-- inversion of a chain that does not raise
pub bind_ok {ℓ κ} :
    {A : Type ℓ} {B : Type κ} (m : Result A) (g : A → Result B) {b : B}
    → (m >>= g) ≡ ok b
    → (a : A) × (m ≡ ok a) × (g a ≡ ok b)
bind_ok (ok a) g h = (a, refl, h)
bind_ok (err e) g h = cc

pub raise_if_ok {ℓ} :
    {B : Type ℓ} (c : Bool) (e : Error) (m : Result B) {b : B}
    → (raise_if c e >> m) ≡ ok b
    → (c ≡ false) × (m ≡ ok b)
raise_if_ok true e m h = cc
raise_if_ok false e m h = (refl, h)

pub ok_injective {ℓ} : {A : Type ℓ} {a b : A} → ok a ≡ ok b → a ≡ b
ok_injective h = cc

pub raise_if_quiet : (c : Bool) (e : Error) {b : Unit {0}} → raise_if c e ≡ ok b → c ≡ false
raise_if_quiet true e h = cc
raise_if_quiet false e h = refl

pub record Order (F : Type 0) : Type 0 where
  pub cl_ord_id : String
  pub symbol : String
  pub side : OrderSide
  pub order_type : OrderType
  pub quantity : F
  pub price : Option F
  pub stop_price : Option F
  pub time_in_force : TimeInForce
  pub state : OrderState
  pub exchange_order_id : Option String
  pub filled_quantity : F
  pub filled_quote_amount : F
  pub average_price : F
  pub fees_paid : F
  pub created_at_ns : ℕ
  pub updated_at_ns : ℕ

pub record ExecutionReport (F : Type 0) : Type 0 where
  pub report_id : String
  pub cl_ord_id : String
  pub exchange_order_id : String
  pub symbol : String
  pub side : OrderSide
  pub exec_type : OrderState
  pub last_quantity : F
  pub last_price : F
  pub cum_quantity : F
  pub leaves_quantity : F
  pub cum_quote_amount : F
  pub average_price : F
  pub fee : F
  pub timestamp_ns : ℕ
  pub text : String

abbrev pub terminal : OrderState → Bool
terminal filled = true
terminal cancelled = true
terminal rejected = true
terminal expired = true
terminal _ = false

abbrev pub active : OrderState → Bool
active pending_new = true
active new = true
active partially_filled = true
active pending_cancel = true
active _ = false

module _ {F : Type 0} where
  abbrev pub is_terminal : Order F → Bool
  is_terminal o = terminal o.state

  abbrev pub is_active : Order F → Bool
  is_active o = active o.state

  unfoldable pub leaves_quantity : ⦃f : Float F⦄ → Order F → F
  leaves_quantity ⦃f⦄ o =
      if is_terminal o then nought else fmax nought (f.sub o.quantity o.filled_quantity)
