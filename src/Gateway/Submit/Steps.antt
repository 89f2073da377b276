-- ===== src/Gateway/Submit/Steps.antt =====
-- What the steps of `submit_order` in src/quant/execution/gateway.py leave alone.
use quant_stuff.Prelude.{
  ℕ, ◌≡◌, refl, ap, sym, ◌∙◌, Bool, true, false, not, some, String, arith, inl, inr, Bool-cases,
}
use quant_stuff.Prelude.Dict.{lookup}
use quant_stuff.Float.{Float, lt, nought, IsNonneg}
use quant_stuff.Orders.Types.{
  Order, ExecutionReport, new, Error, Result, ok, err, assertion_error, insufficient_margin,
  gateway_disconnected,
}
use quant_stuff.Orders.Validate.Accepts.{eq_of_new_report}
use quant_stuff.Orders.Validate.{new_report, report_args}
use quant_stuff.Fsm.{apply_execution_report}
use quant_stuff.Fsm.Transitions.{transition_by_time}
use quant_stuff.Action.{Yields, returns, raises, Yields-bind, yields, anything, always, raise_when}
use quant_stuff.Gateway.Types.{
  Gateway, World, write, deregister, make_report, apply_report, fee_of, is_buy, sleep,
}
use quant_stuff.Gateway.Submit.{
  register, withdraw, identify, acknowledge, is_marketable, buy_price, quote, quoted, estimate,
  check_margin, admissible, execute, submit_order,
}

module _ {F : Type 0} where
  pub write_self : (ref : ℕ) (o : Order F) (g : Gateway F) → (write ref o g).store ref ≡ o
  unfolding write
  write_self ref o g = ground arith

  -- what no step of a submission changes in an order
  pub record SameTerms (o o' : Order F) : Type 0 where
    pub side : o'.side ≡ o.side
    pub order_type : o'.order_type ≡ o.order_type
    pub price : o'.price ≡ o.price
    pub symbol : o'.symbol ≡ o.symbol
    pub quantity : o'.quantity ≡ o.quantity
    pub cl_ord_id : o'.cl_ord_id ≡ o.cl_ord_id

  -- what only a fill changes in the gateway
  pub record SameAccount (g g' : Gateway F) : Type 0 where
    pub cash : g'.cash ≡ g.cash
    pub positions : g'.positions ≡ g.positions
    pub prices : g'.market_prices ≡ g.market_prices
    pub fee_bps : g'.fee_bps ≡ g.fee_bps
    pub slippage_bps : g'.slippage_bps ≡ g.slippage_bps

  pub SameTerms-refl : (o : Order F) → SameTerms o o
  SameTerms-refl o = ground arith

  pub register_keeps :
      (ref : ℕ) (g : Gateway F)
      → SameAccount g (register ref g).1 × ((register ref g).1.store ≡ g.store)
  unfolding register
  register_keeps ref g = ground arith

  pub deregister_keeps :
      (id : String) (g : Gateway F)
      → SameAccount g (deregister id g).1 × ((deregister id g).1.store ≡ g.store)
  unfolding deregister
  deregister_keeps id g = ground arith

  pub withdraw_raises :
      {A : Type 0} (P : A → Gateway F → Type 0) (ref : ℕ) (e : Error) (g : Gateway F)
      → Yields P (withdraw ref e g)
  unfolding withdraw
  withdraw_raises P ref e g =
      Yields-bind (anything (deregister (g.store ref).cl_ord_id g)) λ _ _ _. raises

  module _ ⦃f : Float F⦄ where
    apply_execution_report_terms :
        (o : Order F) (r : ExecutionReport F) → SameTerms o (apply_execution_report o r).1
    unfolding apply_execution_report
    apply_execution_report_terms o r = ground arith

    pub acknowledge_keeps :
        (now ref : ℕ) (g : Gateway F)
        → SameAccount g (acknowledge now ref g).1
          × SameTerms (g.store ref) ((acknowledge now ref g).1.store ref)
    unfolding acknowledge identify write
    acknowledge_keeps now ref g = ground (arith, transition_by_time now (g.store ref) new now)

    pub apply_report_keeps :
        (ref : ℕ) (r : ExecutionReport F) (g : Gateway F)
        → SameAccount g (apply_report ref r g).1
          × SameTerms (g.store ref) ((apply_report ref r g).1.store ref)
    unfolding apply_report write
    apply_report_keeps ref r g = ground (arith, apply_execution_report_terms (g.store ref) r)

    -- a report that is made has the fields that were given
    pub make_report_eq :
        (r : ExecutionReport F) (g : Gateway F)
        → Yields
            (λ q g'. (q ≡ r) × (g' ≡ g) × (new_report (report_args r) ≡ ok q))
            (make_report r g)
    unfolding make_report
    make_report_eq r g = yields (make_report r g) λ q g' e.
        let made = ap (λ x. x.0) e in (eq_of_new_report r q made, sym (ap (λ x. x.1) e), made)

    quote_eq :
        (g : Gateway F) (o : Order F) (price mkt : F)
        → quote g o ≡ ok price
        → lookup o.symbol g.market_prices ≡ some mkt
        → is_marketable g o ≡ true
        → is_buy o.side ≡ true
        → price ≡ buy_price g o mkt
    unfolding quote is_marketable
    quote_eq g o price mkt q m k b = ground arith

    pub quoted_eq :
        (ref : ℕ) (r : Result F) (g : Gateway F)
        → Yields (λ price g'. (g' ≡ g) × (r ≡ ok price)) (quoted ref r g)
    unfolding quoted
    quoted_eq ref (ok p) g = returns (refl, refl)
    quoted_eq ref (err assertion_error) g = raises
    quoted_eq ref (err e) g = withdraw_raises _ ref e g

    -- A buy is charged no more than the cash at its fill, at the prices that stand.
    pub record IsFunded (ref : ℕ) (g : Gateway F) : Type 0 where
      pub cash : IsNonneg g.cash
      pub covered :
          (mkt : F)
          → lookup (g.store ref).symbol g.market_prices ≡ some mkt
          → is_marketable g (g.store ref) ≡ true
          → is_buy (g.store ref).side ≡ true
          → let notional = f.mul (buy_price g (g.store ref) mkt) (g.store ref).quantity in
            lt g.cash (f.add notional (fee_of g notional)) ≡ false

    pub check_margin-IsFunded :
        (ref : ℕ) (g : Gateway F)
        → IsNonneg g.cash
        → Yields (λ _ g'. IsFunded ref g' × (g' ≡ g)) (check_margin ref g)
    unfolding check_margin estimate
    check_margin-IsFunded ref g c =
        Yields-bind (quoted_eq ref (quote g (g.store ref)) g) λ price g' h.
          let notional = f.mul price (g'.store ref).quantity in
          let q : quote g' (g'.store ref) ≡ ok price = rw (h.0) (h.1) in
          elim (Bool-cases (lt g'.cash (f.add notional (fee_of g' notional)))) [
            | inl over ↦ rw over (withdraw_raises _ ref insufficient_margin g')
            | inr fits ↦ rw fits (
                returns (
                  record {
                    cash = rw (h.0) c;
                    covered = λ mkt m k b. rw (← quote_eq g' (g'.store ref) price mkt q m k b) fits;
                  },
                  h.0,
                ))
          ]

    buy_price_congr :
        (g g' : Gateway F) (o o' : Order F) (mkt : F)
        → SameAccount g g'
        → SameTerms o o'
        → buy_price g' o' mkt ≡ buy_price g o mkt
    unfolding buy_price
    buy_price_congr g g' o o' mkt same terms = ground arith

    is_marketable_congr :
        (g g' : Gateway F) (o o' : Order F)
        → SameAccount g g'
        → SameTerms o o'
        → is_marketable g' o' ≡ is_marketable g o
    unfolding is_marketable
    is_marketable_congr g g' o o' same terms = ground arith

    -- what keeps the account and the terms keeps a buy funded
    keeps-IsFunded :
        (ref : ℕ) (g g' : Gateway F)
        → SameAccount g g'
        → SameTerms (g.store ref) (g'.store ref)
        → IsFunded ref g
        → IsFunded ref g'
    keeps-IsFunded ref g g' same terms h = record {
      cash = rw (same.cash) (h.cash);
      covered = λ mkt m k b.
          rw
            (
              buy_price_congr g g' (g.store ref) (g'.store ref) mkt same terms,
              same.cash,
              same.fee_bps,
              terms.quantity,
            )
            (h.covered mkt (rw (← terms.symbol, ← same.prices) m)
              (rw (← is_marketable_congr g g' (g.store ref) (g'.store ref) same terms) k)
              (rw (← terms.side) b));
    }

    -- an acknowledgment leaves the order's terms and the account alone
    pub acknowledge-IsFunded :
        (now ref : ℕ) (g : Gateway F) → IsFunded ref g → IsFunded ref (acknowledge now ref g).1
    acknowledge-IsFunded now ref g h =
        let (same, terms) = acknowledge_keeps now ref g in keeps-IsFunded ref g _ same terms h

    -- the checks before the registration do not touch the gateway
    pub admissible_keeps : (o : Order F) (g : Gateway F) → (admissible o g).1 ≡ g
    unfolding admissible
    admissible_keeps o g = ground arith

    pub raise_when_keeps : (b : Bool) (e : Error) (g : Gateway F) → (raise_when b e g).1 ≡ g
    raise_when_keeps true e g = refl
    raise_when_keeps false e g = refl

    slept :
        (P : Gateway F → Type 0) (other : Gateway F → Gateway F) (g : Gateway F)
        → P g
        → P (other g)
        → P (sleep other g).1
    unfolding sleep
    slept P other g p p' = elim (Bool-cases (lt nought g.latency_ms)) [
      | inl e ↦ rw e p'
      | inr e ↦ rw e p
    ]

    -- what the execution after the sleep yields
    pub submit_order_after_sleep :
        (Q : ExecutionReport F → Gateway F → Type 0) (w : World) (other : Gateway F → Gateway F)
        (ref : ℕ) (g : Gateway F)
        → Yields Q (execute w ref (sleep other g).1)
        → Yields Q (submit_order w other ref g)
    unfolding submit_order sleep
    submit_order_after_sleep Q w other ref g h =
        let connected = not g.is_connected in
        Yields-bind {P = λ _ s. s ≡ g}
          (always (raise_when connected gateway_disconnected g)
            (raise_when_keeps connected gateway_disconnected g))
          λ _ s1 e1.
            Yields-bind {P = λ _ s. s ≡ s1}
              (always (admissible (g.store ref) s1) (admissible_keeps (g.store ref) s1))
              λ _ s2 e2. rw (e2 ∙ e1) h

    -- What holds before and after the sleep holds at the execution.
    pub submit_order-Yields :
        (P : Gateway F → Type 0) (Q : ExecutionReport F → Gateway F → Type 0) (w : World)
        (other : Gateway F → Gateway F) (ref : ℕ) (g : Gateway F)
        → P g
        → P (other g)
        → ((g' : Gateway F) → P g' → Yields Q (execute w ref g'))
        → Yields Q (submit_order w other ref g)
    submit_order-Yields P Q w other ref g p p' h =
        submit_order_after_sleep Q w other ref g (h _ (slept P other g p p'))
