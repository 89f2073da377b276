-- ===== src/Risk/Firewall/Totals.antt =====
-- The totals that `validate_order` of src/quant/execution/risk.py sums up are those of the description.
use quant_stuff.Prelude.{
  ◌≡◌, ◌≢◌, refl, ap, inl, inr, ◌↔◌, Bool, true, false, ◌&&◌, String, List, [], ◌∷◌, arith,
  Bool-cases, if◌then◌else◌, str_eq, str_eq_iff,
}
use quant_stuff.Prelude.Dict.{Dict}
use quant_stuff.Float.{Float, IsOrdered, absolute, IsPositive}
use quant_stuff.Orders.Types.{Order, OrderSide, ok, bind_ok, ok_injective, ◌>>=◌}
use quant_stuff.Risk.State.{PortfolioRiskState, amount, price_of, netted, gross_exposure, opposed}
use quant_stuff.Risk.Firewall.{
  valuation, add_value, projected_from, projected_equity, signed_quantity, projected_exposure,
  target_exposure, order_delta, add_notional, notionals_from,
}
use quant_stuff.Risk.Firewall.Projection.{
  working, largest, exposure, held, worked, pending, crossed, Priced, Worth, all_valued, dust,
  holding, Exposed, all_counted, ordered, idle, other,
}
use quant_stuff.Risk.Firewall.Projects.{price_of_iff, projected_exposure-largest}

both_true : (a b : Bool) → (a && b) ≡ true → (a ≡ true) × (b ≡ true)
both_true a b h = (ground arith, ground arith)

module _ {F : Type 0} ⦃f : Float F⦄ where
  module _ (laws : IsOrdered F) where
    module _ (order : Order F) (ref : F) (s : PortfolioRiskState F) where
      differs : (sym : String) → str_eq sym order.symbol ≡ false → sym ≢ order.symbol
      differs sym e q = ground (arith, str_eq_iff sym order.symbol)

      equal_not : (sym : String) → sym ≢ order.symbol → str_eq sym order.symbol ≡ false
      equal_not sym e = ground (arith, str_eq_iff sym order.symbol)

      valuation_iff :
          (sym : String) (p : F) → (valuation order ref s sym ≡ ok p) ↔ Priced order s ref sym p
      unfolding valuation
      valuation_iff sym p = elim (Bool-cases (str_eq sym order.symbol)) [
        | inl e ↦ (
          λ h. inl ((str_eq_iff sym order.symbol).0 e, ok_injective (rw e at h)),
          λ h. ground (arith, str_eq_iff sym order.symbol),
        )
        | inr e ↦ (
          λ h. inr (differs sym e, (price_of_iff laws sym s.current_prices p).0 (rw e at h)),
          λ h. elim h [
            | inl (q, _) ↦ absurd (ground (arith, str_eq_iff sym order.symbol))
            | inr (_, noted) ↦ rw e ((price_of_iff laws sym s.current_prices p).1 noted)
          ],
        )
      ]

      projected_from-Worth :
          (d : Dict F) (cash total : F)
          → projected_from order ref s d cash ≡ ok total
          → Worth order s ref d cash total
      unfolding projected_from add_value
      projected_from-Worth [] cash total h = rw (ok_injective h) all_valued
      projected_from-Worth ((sym, x) ∷ d) cash total h =
          elim (Bool-cases (f.le (absolute x) (f.lit 1 12))) [
            | inl e ↦ dust e (projected_from-Worth d cash total (rw e at h))
            | inr e ↦
                let (sum, h0, h1) =
                  bind_ok (add_value (valuation order ref s sym) x cash)
                    (λ c. projected_from order ref s d c) h in
                let (p, found, h2) = bind_ok _ _ (rw e at h0) in
                holding e ((valuation_iff sym p).0 found)
                  (projected_from-Worth d (f.add cash (f.mul x p)) total (rw (ok_injective h2) h1))
          ]

      Worth-projected_from :
          (d : Dict F) (cash total : F)
          → Worth order s ref d cash total
          → projected_from order ref s d cash ≡ ok total
      unfolding projected_from add_value
      Worth-projected_from [] cash total all_valued = refl
      Worth-projected_from ((sym, x) ∷ d) cash total (dust e w) =
          rw e (Worth-projected_from d cash total w)
      Worth-projected_from ((sym, x) ∷ d) cash total (holding {p = p} e priced w) =
          rw (e, (valuation_iff sym p).1 priced) (Worth-projected_from d _ total w)

      pub projected_equity_iff :
          (total : F)
          → (projected_equity order ref s ≡ ok total) ↔ Worth order s ref s.positions s.cash total
      unfolding projected_equity
      projected_equity_iff total = (
        projected_from-Worth s.positions s.cash total,
        Worth-projected_from s.positions s.cash total,
      )

      module _ (positive : IsPositive order.quantity) where
        own_exposure :
            projected_exposure
              (order_delta order)
              (amount order.symbol s.positions)
              (amount order.symbol s.pending_leaves)
            ≡ exposure order s ref
        own_exposure =
            projected_exposure-largest laws order.side order.quantity
              (amount order.symbol s.positions) (amount order.symbol s.pending_leaves) positive

        pub target_exposure-exposure :
            target_exposure order ref s ≡ f.mul (exposure order s ref) ref
        target_exposure-exposure = ap (λ x. f.mul x ref) own_exposure

        own_working :
            (side : OrderSide) (quantity leaves : F)
            → f.add leaves (signed_quantity side quantity) ≡ working side quantity leaves
        unfolding signed_quantity working
        own_working OrderSide.buy quantity leaves = refl
        own_working OrderSide.sell quantity leaves = refl

        add_notional_own :
            (sym : String) (gross net : F)
            → sym ≡ order.symbol
            → add_notional order ref s sym (gross, net)
              ≡ ok (
                f.add gross (f.mul (exposure order s ref) ref),
                f.add net (f.mul (f.add (held order s ref order.symbol) (worked order s ref)) ref),
              )
        unfolding add_notional
        add_notional_own sym gross net e =
            rw
              (
                e,
                (str_eq_iff order.symbol order.symbol).1 refl,
                own_exposure,
                own_working order.side order.quantity (amount order.symbol s.pending_leaves),
              )
              refl

        add_notional_other :
            (sym : String) (gross net : F)
            → str_eq sym order.symbol ≡ false
            → add_notional order ref s sym (gross, net) ≡ (
                if f.le (absolute (held order s ref sym)) (f.lit 1 12)
                  && f.le (absolute (pending order s ref sym)) (f.lit 1 12)
                then ok (gross, net)
                else (price_of sym s.current_prices >>= λ p. ok (
                  f.add gross (
                      f.mul
                        (largest
                          (crossed (held order s ref sym) (pending order s ref sym))
                          (held order s ref sym)
                          (pending order s ref sym))
                        p),
                  f.add net (f.mul (f.add (held order s ref sym) (pending order s ref sym)) p),
                )))
        unfolding add_notional gross_exposure netted opposed
        add_notional_other sym gross net e = rw e refl

        notionals_from-Exposed :
            (syms : List String) (gross net : F) (sums : F × F)
            → notionals_from order ref s syms (gross, net) ≡ ok sums
            → Exposed order s ref syms gross net sums
        unfolding notionals_from
        notionals_from-Exposed [] gross net sums h = rw (← ok_injective h) all_counted
        notionals_from-Exposed (sym ∷ syms) gross net sums h =
            let (next, h0, h1) =
              bind_ok (add_notional order ref s sym (gross, net))
                (λ c. notionals_from order ref s syms c) h in
            elim (Bool-cases (str_eq sym order.symbol)) [
              | inl e ↦
                  let same = (str_eq_iff sym order.symbol).0 e in
                  ordered same (
                    notionals_from-Exposed syms _ _ sums
                      (rw (ok_injective (rw (add_notional_own sym gross net same) at h0)) h1))
              | inr e ↦
                  let differ = differs sym e in
                  let h2 = rw (add_notional_other sym gross net e) at h0 in
                  elim (Bool-cases (
                    f.le (absolute (held order s ref sym)) (f.lit 1 12)
                    && f.le (absolute (pending order s ref sym)) (f.lit 1 12))) [
                      | inl both ↦
                          let (one, two) = both_true _ _ both in
                          idle differ one two (
                            notionals_from-Exposed syms gross net sums
                              (rw (ok_injective (rw both at h2)) h1))
                      | inr some_held ↦
                          let (p, found, h3) = bind_ok _ _ (rw some_held at h2) in
                          other differ some_held
                            ((price_of_iff laws sym s.current_prices p).0 found)
                            (notionals_from-Exposed syms _ _ sums (rw (ok_injective h3) h1))
                    ]
            ]

        Exposed-notionals_from :
            (syms : List String) (gross net : F) (sums : F × F)
            → Exposed order s ref syms gross net sums
            → notionals_from order ref s syms (gross, net) ≡ ok sums
        unfolding notionals_from
        Exposed-notionals_from [] gross net sums all_counted = refl
        Exposed-notionals_from (sym ∷ syms) gross net sums (ordered same w) =
            rw (add_notional_own sym gross net same) (Exposed-notionals_from syms _ _ sums w)
        Exposed-notionals_from (sym ∷ syms) gross net sums (idle differ one two w) =
            rw (add_notional_other sym gross net (equal_not sym differ), one, two)
              (Exposed-notionals_from syms _ _ sums w)
        Exposed-notionals_from (sym ∷ syms) gross net sums
              (other {p = p} differ some_held noted w) =
            rw
              (
                add_notional_other sym gross net (equal_not sym differ),
                some_held,
                (price_of_iff laws sym s.current_prices p).1 noted,
              )
              (Exposed-notionals_from syms _ _ sums w)

        pub notionals_from_iff :
            (syms : List String) (gross net : F) (sums : F × F)
            → (notionals_from order ref s syms (gross, net) ≡ ok sums)
              ↔ Exposed order s ref syms gross net sums
        notionals_from_iff syms gross net sums =
            (notionals_from-Exposed syms gross net sums, Exposed-notionals_from syms gross net sums)
