-- ===== src/Gateway/Account.antt =====
-- INV-GW-003: the cash and the positions of the gateway in src/quant/execution/gateway.py as a ledger of
-- its execution reports.
pub mod Fills
pub mod Runs
use quant_stuff.Prelude.{arith, ℕ, ◌≡◌, refl, Bool, true, false, String, if◌then◌else◌}
use quant_stuff.Prelude.Dict.{Dict, insert}
use quant_stuff.Float.{Float}
use quant_stuff.Orders.Types.{ExecutionReport, OrderSide, buy, sell, OrderState, filled}
use quant_stuff.Gateway.Types.{Gateway, is_buy, position, tidy, settle}
use quant_stuff.Gateway.Submit.Steps.{SameAccount}

pub record Account (F : Type 0) : Type 0 where
  pub cash : F
  pub positions : Dict F

abbrev pub is_filled : OrderState → Bool
is_filled filled = true
is_filled _ = false

module _ {F : Type 0} where
  abbrev pub account : Gateway F → Account F
  account g = record { cash = g.cash; positions = g.positions }

  pub account_eq : (g g' : Gateway F) → SameAccount g g' → account g' ≡ account g
  account_eq g g' same = rw (same.cash, same.positions) refl

  module _ ⦃f : Float F⦄ where
    -- a fill pays or earns its quote amount, pays its fee, and moves the position by its quantity
    abbrev pub post_fill : ExecutionReport F → Account F → Account F
    post_fill r a =
        let held = position r.symbol a.positions in
        if is_buy r.side
        then record {
          cash = f.sub a.cash (f.add r.cum_quote_amount r.fee);
          positions = insert r.symbol (tidy (f.round (f.add held r.last_quantity) 8)) a.positions;
        }
        else record {
          cash = f.add a.cash (f.sub r.cum_quote_amount r.fee);
          positions = insert r.symbol (tidy (f.round (f.sub held r.last_quantity) 8)) a.positions;
        }

    -- a report that is no fill moves nothing
    abbrev pub post : ExecutionReport F → Account F → Account F
    post r a = if is_filled r.exec_type then post_fill r a else a

    pub settle_account :
        (r : ExecutionReport F) (g : Gateway F)
        → r.exec_type ≡ filled
        → account (settle r.side r.symbol r.last_quantity r.cum_quote_amount r.fee g)
          ≡ post r (account g)
    unfolding settle
    settle_account r g h = ground arith
