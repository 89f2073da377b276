-- ===== src/Gateway/Submit/Cash.antt =====
-- INV-GW-003: the cash after `submit_order` in src/quant/execution/gateway.py.
use quant_stuff.Prelude.{
  ℕ, suc, ◌≡◌, refl, ap, true, false, some, String, arith, inl, inr, Bool-cases, Option-cases,
}
use quant_stuff.Prelude.Dict.{lookup}
use quant_stuff.Float.{Float, lt, nought, IsNonneg, IsOrdered, ◌≼◌}
use quant_stuff.Orders.Types.{ExecutionReport, OrderSide, buy, sell, ok, invalid_order_input}
use quant_stuff.Orders.Validate.Bounds.{ReportIsValid, new_report-IsValid}
use quant_stuff.Action.{Yields, returns, Yields-bind, always, yielded}
use quant_stuff.Gateway.Types.{
  Gateway, World, deregister, settle, make_report, apply_report, count_report, fee_of, is_buy,
}
use quant_stuff.Gateway.Submit.{
  is_marketable, buy_price, fill_at, fill_now, rest, route, execute, submit_order, register,
  acknowledge,
}
use quant_stuff.Gateway.Submit.Steps.{
  IsFunded, check_margin-IsFunded, acknowledge-IsFunded, register_keeps, deregister_keeps,
  apply_report_keeps, make_report_eq, withdraw_raises, acknowledge_keeps, submit_order-Yields,
}

module _ {F : Type 0} ⦃f : Float F⦄ where
  -- paying an amount that the cash covers leaves cash that is not negative
  module _ (laws : IsOrdered F) where
    open laws use {le_finite, refl_of_le, le_total, add_nonneg, sub_nonneg, sub-le, finite_between}

    pay-IsNonneg :
        (cash n fee : F)
        → IsNonneg cash
        → nought ≼ n
        → nought ≼ fee
        → lt cash (f.add n fee) ≡ false
        → IsNonneg (f.sub cash (f.add n fee))
    pay-IsNonneg cash n fee c hn hf covered =
        let owed = f.add n fee in
        let some_owed : nought ≼ owed = add_nonneg n fee hn hf in
        let fits : owed ≼ cash =
          ground
            (arith, le_total cash owed (le_finite cash c.0) (refl_of_le nought owed some_owed).1) in
        let finite : f.is_finite owed ≡ true = finite_between owed cash some_owed fits c.0 in
        let left : nought ≼ f.sub cash owed = sub_nonneg cash owed c.0 finite fits in
        (finite_between (f.sub cash owed) cash left (sub-le cash owed c.0 some_owed) c.0, left)

  settle_buy :
      (side : OrderSide) (sym : String) (qty n fee : F) (g : Gateway F)
      → is_buy side ≡ true
      → (settle side sym qty n fee g).cash ≡ f.sub g.cash (f.add n fee)
  unfolding settle
  settle_buy buy sym qty n fee g b = refl
  settle_buy sell sym qty n fee g b = cc

  module _ (laws : IsOrdered F) where
    fill_at-cash :
        (w : World) (now ref : ℕ) (mkt : F) (g : Gateway F)
        → IsFunded ref g
        → lookup (g.store ref).symbol g.market_prices ≡ some mkt
        → is_marketable g (g.store ref) ≡ true
        → is_buy (g.store ref).side ≡ true
        → Yields (λ _ g'. IsNonneg g'.cash) (fill_at w now ref mkt g)
    unfolding fill_at count_report
    fill_at-cash w now ref mkt g h m k b = rw b (
        Yields-bind (make_report_eq _ _) λ q g2 made.
          let valid : ReportIsValid q = new_report-IsValid laws _ q (made.2) in
          let notional = f.mul (buy_price g (g.store ref) mkt) (g.store ref).quantity in
          let fee = fee_of g notional in
          let quote : nought ≼ notional =
            rw (ap (λ x. x.cum_quote_amount) made.0) at (valid.cum_quote_amount.1) in
          let charged : nought ≼ fee = rw (ap (λ x. x.fee) made.0) at (valid.fee.1) in
          let paid : IsNonneg g2.cash =
            rw (made.1, settle_buy _ _ _ _ _ g b)
              (pay-IsNonneg laws g.cash notional fee h.cash quote charged (h.covered mkt m k b)) in
          Yields-bind
            (always (apply_report ref q g2) (rw ((apply_report_keeps ref q g2).0.cash) paid))
            λ _ g3 c3.
              Yields-bind
                (always (deregister (g.store ref).cl_ord_id g3)
                  (rw ((deregister_keeps (g.store ref).cl_ord_id g3).0.cash) c3))
                λ _ g4 c4. returns c4)

    fill_now-cash :
        (w : World) (now ref : ℕ) (g : Gateway F)
        → IsFunded ref g
        → is_marketable g (g.store ref) ≡ true
        → is_buy (g.store ref).side ≡ true
        → Yields (λ _ g'. IsNonneg g'.cash) (fill_now w now ref g)
    unfolding fill_now
    fill_now-cash w now ref g h k b =
        elim (Option-cases (lookup (g.store ref).symbol g.market_prices)) [
          | inl e ↦ rw (e, fill_now) (withdraw_raises _ ref invalid_order_input g)
          | inr (mkt, e) ↦ rw (e, fill_now) (fill_at-cash w now ref mkt g h e k b)
        ]

    route-cash :
        (w : World) (now ref : ℕ) (g : Gateway F)
        → IsFunded ref g
        → is_buy (g.store ref).side ≡ true
        → Yields (λ _ g'. IsNonneg g'.cash) (route w now ref g)
    unfolding route rest count_report make_report
    route-cash w now ref g h b = elim (Bool-cases (is_marketable g (g.store ref))) [
      | inl k ↦ rw k (fill_now-cash w now ref g h k b)
      | inr k ↦ rw k (always (make_report _ _) h.cash)
    ]

    execute-Yields :
        (w : World) (ref : ℕ) (g : Gateway F)
        → IsNonneg g.cash
        → is_buy (g.store ref).side ≡ true
        → Yields (λ _ g'. IsNonneg g'.cash) (execute w ref g)
    unfolding execute
    execute-Yields w ref g c b =
        let (same, store) = register_keeps ref g in
        Yields-bind {P = λ _ s. IsNonneg s.cash × (is_buy (s.store ref).side ≡ true)}
          (always (register ref g) (rw (same.cash) c, rw store b))
          λ _ g1 h1. rw (h1.1) (
            Yields-bind (check_margin-IsFunded ref g1 (h1.0)) λ _ g2 h2.
              let now = w.now (suc g1.report_counter) in
              Yields-bind {P = λ _ s. IsFunded ref s × (is_buy (s.store ref).side ≡ true)}
                (always (acknowledge now ref g2) (
                  acknowledge-IsFunded now ref g2 (h2.0),
                  rw ((acknowledge_keeps now ref g2).1.side, h2.1) (h1.1),
                ))
                λ _ g3 h3. route-cash w now ref g3 (h3.0) (h3.1))

    -- If the rules of IEEE 754 hold and the cash is finite and not negative, also after what other tasks
    -- do while `submit_order` sleeps, it is so after a buy that is submitted with success, whether the
    -- buy is filled or rests.
    pub submit_order-cash :
        (w : World) (other : Gateway F → Gateway F) (ref : ℕ) (g : Gateway F)
        → IsNonneg g.cash
        → is_buy (g.store ref).side ≡ true
        → IsNonneg (other g).cash
        → is_buy ((other g).store ref).side ≡ true
        → (r : ExecutionReport F) (g' : Gateway F) → submit_order w other ref g ≡ (ok r, g')
        → IsNonneg g'.cash
    submit_order-cash w other ref g c b c' b' r g' e =
        yielded r g'
          (submit_order-Yields (λ s. IsNonneg s.cash × (is_buy (s.store ref).side ≡ true))
            (λ _ s. IsNonneg s.cash) w other ref g (c, b) (c', b')
            (λ s h. execute-Yields w ref s (h.0) (h.1)))
          e
