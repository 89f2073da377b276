-- ===== src/Gateway/Submit/Limits.antt =====
-- The limit price in `submit_order` of src/quant/execution/gateway.py.
use quant_stuff.Prelude.{
  ℕ, suc, ◌≡◌, refl, ap, sym, true, false, some, String, arith, inl, inr, Bool-cases, Option-cases,
  if◌then◌else◌,
}
use quant_stuff.Prelude.Dict.{lookup}
use quant_stuff.Float.{Float, IsOrdered, ◌≼◌}
use quant_stuff.Float.Order.{fmin-le_left, le-fmax_left}
use quant_stuff.Orders.Types.{
  Order, ExecutionReport, OrderSide, buy, sell, filled, ok, invalid_order_input,
}
use quant_stuff.Action.{Yields, returns, Yields-bind, Yields-map, always, anything, yielded, pure}
use quant_stuff.Gateway.Types.{
  NoWorse, Gateway, World, slippage, deregister, settle, apply_report, count_report, is_limit,
  is_buy,
}
use quant_stuff.Gateway.Submit.{
  one, is_marketable, buy_price, sell_price, fill_at, fill_now, rest, route, execute, register,
  check_margin, acknowledge, submit_order,
}
use quant_stuff.Gateway.Submit.Steps.{
  SameTerms, SameTerms-refl, deregister_keeps, apply_report_keeps, make_report_eq, withdraw_raises,
  submit_order-Yields,
}

module _ {F : Type 0} ⦃f : Float F⦄ where
  -- a price no worse than the limit of the order, if it has one that is finite
  abbrev pub Protects : Order F → F → Type 0
  Protects o price =
      (p : F)
      → is_limit o.order_type ≡ true
      → o.price ≡ some p
      → f.is_finite p ≡ true
      → (is_buy o.side ≡ true → price ≼ p) × (is_buy o.side ≡ false → p ≼ price)

  -- the report of a fill keeps to the limit of the order as it stands then
  abbrev pub FillProtects : ℕ → ExecutionReport F → Gateway F → Type 0
  FillProtects ref r g = r.exec_type ≡ filled → Protects (g.store ref) r.last_price

  Protects-congr :
      (o o' : Order F) (price : F) → SameTerms o o' → Protects o price → Protects o' price
  Protects-congr o o' price t h = λ p l e v. ground (arith, h p)

  pub no_worse :
      (side : OrderSide) (price p : F)
      → (is_buy side ≡ true → price ≼ p)
      → (is_buy side ≡ false → p ≼ price)
      → NoWorse side price p
  no_worse buy price p h k = h refl
  no_worse sell price p h k = k refl

  settle_store :
      (side : OrderSide) (sym : String) (qty n fee : F) (g : Gateway F)
      → (settle side sym qty n fee g).store ≡ g.store
  unfolding settle
  settle_store buy sym qty n fee g = refl
  settle_store sell sym qty n fee g = refl

  module _ (laws : IsOrdered F) where
    price-Protects :
        (g : Gateway F) (o : Order F) (mkt : F)
        → Protects o (if is_buy o.side then buy_price g o mkt else sell_price g o mkt)
    unfolding buy_price sell_price
    price-Protects g o mkt = λ p l e v. ground (
      arith,
      fmin-le_left laws p (f.mul mkt (f.add one (slippage g))),
      le-fmax_left laws p (f.mul mkt (f.sub one (slippage g))),
    )

    fill_at_protects :
        (w : World) (now ref : ℕ) (mkt : F) (g : Gateway F)
        → Yields (FillProtects ref) (fill_at w now ref mkt g)
    unfolding fill_at count_report
    fill_at_protects w now ref mkt g =
        let o = g.store ref in
        Yields-bind (make_report_eq _ _) λ q g2 made.
          let id = o.cl_ord_id in
          let kept : SameTerms o (g2.store ref) =
            rw (made.1, settle_store o.side o.symbol o.quantity _ _ g) (SameTerms-refl o) in
          let here : Protects (g2.store ref) q.last_price =
            Protects-congr o (g2.store ref) q.last_price kept
              (rw (ap (λ x. x.last_price) made.0) (price-Protects g o mkt)) in
          Yields-bind {P = λ _ s. Protects (s.store ref) q.last_price}
            (always (apply_report ref q g2)
              (Protects-congr _ _ q.last_price ((apply_report_keeps ref q g2).1) here))
            λ _ g3 p3.
              Yields-bind {P = λ _ s. Protects (s.store ref) q.last_price}
                (always (deregister id g3) (rw ((deregister_keeps id g3).1) p3))
                λ _ g4 p4. returns (λ _. p4)

    rest_protects :
        (w : World) (now ref : ℕ) (g : Gateway F) → Yields (FillProtects ref) (rest w now ref g)
    unfolding rest count_report
    rest_protects w now ref g =
        Yields-map (make_report_eq _ _)
          λ q g2 made. λ k. let resting = ap (λ x. x.exec_type) made.0 in cc

    fill_now_protects :
        (w : World) (now ref : ℕ) (g : Gateway F) → Yields (FillProtects ref) (fill_now w now ref g)
    unfolding fill_now
    fill_now_protects w now ref g =
        elim (Option-cases (lookup (g.store ref).symbol g.market_prices)) [
          | inl e ↦ rw (e, fill_now) (withdraw_raises _ ref invalid_order_input g)
          | inr (mkt, e) ↦ rw (e, fill_now) (fill_at_protects w now ref mkt g)
        ]

    route_protects :
        (w : World) (now ref : ℕ) (g : Gateway F) → Yields (FillProtects ref) (route w now ref g)
    unfolding route
    route_protects w now ref g = elim (Bool-cases (is_marketable g (g.store ref))) [
      | inl k ↦ rw k (fill_now_protects w now ref g)
      | inr k ↦ rw k (rest_protects w now ref g)
    ]

    execute_protects :
        (w : World) (ref : ℕ) (g : Gateway F) → Yields (FillProtects ref) (execute w ref g)
    unfolding execute
    execute_protects w ref g = Yields-bind (anything (register ref g)) λ _ g1 _.
        Yields-bind
          (anything ((if is_buy (g1.store ref).side then check_margin ref else pure tt) g1))
          λ _ g2 _.
            let now = w.now (suc g1.report_counter) in
            Yields-bind (anything (acknowledge now ref g2)) λ _ g3 _. route_protects w now ref g3

    -- If the rules of IEEE 754 hold and `submit_order` returns the report of a fill of a limit order with
    -- a finite price, the price of the fill is no worse than the limit: a buy is not filled above it and
    -- a sell is not filled below it.
    pub submit_order-limit :
        (w : World) (other : Gateway F → Gateway F) (ref : ℕ) (g : Gateway F)
        (r : ExecutionReport F) (g' : Gateway F)
        → submit_order w other ref g ≡ (ok r, g')
        → r.exec_type ≡ filled
        → (p : F) → is_limit (g'.store ref).order_type ≡ true
        → (g'.store ref).price ≡ some p
        → f.is_finite p ≡ true
        → NoWorse (g'.store ref).side r.last_price p
    submit_order-limit w other ref g r g' e k p l q v =
        let protected : Protects (g'.store ref) r.last_price =
          yielded r g'
            (submit_order-Yields (λ _. Unit {0}) (FillProtects ref) w other ref g tt tt
              λ s _. execute_protects w ref s)
            e k in
        no_worse (g'.store ref).side r.last_price p ((protected p l q v).0) ((protected p l q v).1)
