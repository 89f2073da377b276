-- ===== src/Gateway/Account/Fills.antt =====
-- What a call of the gateway in src/quant/execution/gateway.py does to the account: the posting of the
-- reports that it returns.
use quant_stuff.Prelude.{
  ℕ, suc, ◌≡◌, refl, ap, ◌∙◌, inl, inr, Bool-cases, Option-cases, if◌then◌else◌,
}
use quant_stuff.Prelude.Dict.{lookup}
use quant_stuff.Float.{Float, lt}
use quant_stuff.Orders.Types.{insufficient_margin, invalid_order_input}
use quant_stuff.Action.{Yields, returns, Yields-bind, Yields-map, always}
use quant_stuff.Gateway.Types.{Gateway, World, is_buy, count_report, fee_of, settle}
use quant_stuff.Gateway.Submit.{
  register, is_marketable, buy_price, sell_price, fill_report, known_id, fill_at, fill_now, rest,
  route, execute, quote, estimate, check_margin, acknowledge,
}
use quant_stuff.Gateway.Submit.Steps.{
  register_keeps, acknowledge_keeps, make_report_eq, withdraw_raises, quoted_eq,
}
use quant_stuff.Gateway.Booked.{booked}
use quant_stuff.Gateway.Account.{account, account_eq, post, settle_account}

module _ {F : Type 0} ⦃f : Float F⦄ where
  fill_at-post :
      (w : World) (now ref : ℕ) (mkt : F) (g : Gateway F)
      → Yields (λ r g'. account g' ≡ post r (account g)) (fill_at w now ref mkt g)
  unfolding fill_at count_report
  fill_at-post w now ref mkt g =
      let o = g.store ref in
      let price = if is_buy o.side then buy_price g o mkt else sell_price g o mkt in
      let notional = f.mul price o.quantity in
      let fee = fee_of g notional in
      let settled = settle o.side o.symbol o.quantity notional fee g in
      let n = suc settled.report_counter in
      let report = fill_report w now n o (known_id o) price fee "Order filled immediately" in
      Yields-map (booked (λ r. r) report ref o.cl_ord_id (record settled { report_counter = n }))
        λ r g' h. rw (h.0) (account_eq _ g' (h.1.account) ∙ settle_account report g refl)

  rest-post :
      (w : World) (now ref : ℕ) (g : Gateway F)
      → Yields (λ r g'. account g' ≡ post r (account g)) (rest w now ref g)
  unfolding rest count_report
  rest-post w now ref g = Yields-map (make_report_eq _ _) λ r g' made. rw (made.0, made.1) refl

  fill_now-post :
      (w : World) (now ref : ℕ) (g : Gateway F)
      → Yields (λ r g'. account g' ≡ post r (account g)) (fill_now w now ref g)
  unfolding fill_now
  fill_now-post w now ref g = elim (Option-cases (lookup (g.store ref).symbol g.market_prices)) [
    | inl e ↦ rw (e, fill_now) (withdraw_raises _ ref invalid_order_input g)
    | inr (mkt, e) ↦ rw (e, fill_now) (fill_at-post w now ref mkt g)
  ]

  route-post :
      (w : World) (now ref : ℕ) (g : Gateway F)
      → Yields (λ r g'. account g' ≡ post r (account g)) (route w now ref g)
  unfolding route
  route-post w now ref g = elim (Bool-cases (is_marketable g (g.store ref))) [
    | inl k ↦ rw k (fill_now-post w now ref g)
    | inr k ↦ rw k (rest-post w now ref g)
  ]

  check_margin_keeps : (ref : ℕ) (g : Gateway F) → Yields (λ _ g'. g' ≡ g) (check_margin ref g)
  unfolding check_margin estimate
  check_margin_keeps ref g = Yields-bind (quoted_eq ref (quote g (g.store ref)) g) λ price g' h.
      let notional = f.mul price (g'.store ref).quantity in
      elim (Bool-cases (lt g'.cash (f.add notional (fee_of g' notional)))) [
        | inl over ↦ rw over (withdraw_raises _ ref insufficient_margin g')
        | inr fits ↦ rw fits (returns (h.0))
      ]

  -- The execution of an order leaves the account that the posting of its report gives.
  pub execute-post :
      (w : World) (ref : ℕ) (g : Gateway F)
      → Yields (λ r g'. account g' ≡ post r (account g)) (execute w ref g)
  unfolding execute
  execute-post w ref g =
      Yields-bind {P = λ _ s. account s ≡ account g}
        (always (register ref g) (account_eq g _ (register_keeps ref g).0))
        λ _ g1 e1.
          Yields-bind {P = λ _ s. account s ≡ account g}
            (elim (Bool-cases (is_buy (g1.store ref).side)) [
              | inl b ↦ rw b (Yields-map (check_margin_keeps ref g1) λ _ g' e. rw e e1)
              | inr b ↦ rw b (returns e1)
            ])
            λ _ g2 e2.
              let now = w.now (suc g1.report_counter) in
              Yields-bind {P = λ _ s. account s ≡ account g}
                (always (acknowledge now ref g2)
                  (account_eq g2 _ (acknowledge_keeps now ref g2).0 ∙ e2))
                λ _ g3 e3. Yields-map (route-post w now ref g3) λ r g' e. e ∙ ap (post r) e3
