-- ===== src/Risk/Firewall/Within.antt =====
-- When `validate_order` of src/quant/execution/risk.py lets an order pass.
use quant_stuff.Prelude.Dict.{add}
use quant_stuff.Prelude.{
  if◌then◌else◌, sym, ap, ◌∙◌, refl, ◌≡◌, ◌⊎◌, inl, inr, ◌↔◌, true, false, Option, String, List,
  arith, Bool-cases,
}
use quant_stuff.Float.{Float, IsOrdered, lt, nought, absolute, IsPositive, ◌≼◌}
use quant_stuff.Orders.Types.{
  Result, raise_if, insufficient_margin_risk, ◌>>=◌, Order, ok, raise_if_ok, raise_if_quiet,
  bind_ok,
}
use quant_stuff.Risk.Limits.{RiskLimits}
use quant_stuff.Risk.State.{PortfolioRiskState, free_margin, symbols}
use quant_stuff.Risk.Firewall.{
  projected_notionals, target_exposure, check_margin, check_ratios, screen,
}
use quant_stuff.Risk.Firewall.Projection.{Referenced, locked_cash, exposure, Worth, Exposed, Locked}
use quant_stuff.Risk.Firewall.Accounts.{free_margin_iff}
use quant_stuff.Risk.Firewall.Projects.{required_margin-locked_cash, reference_price_iff}
use quant_stuff.Risk.Firewall.Totals.{
  target_exposure-exposure, projected_equity_iff, notionals_from_iff,
}

-- The figures that the checks compute.
pub record Figures (F : Type 0) : Type 0 where
  pub ref : F
  pub equity : F
  pub gross : F
  pub net : F

module _ {F : Type 0} ⦃f : Float F⦄ where
  -- `x` is at most `m`, unless it is NaN
  abbrev pub AtMost : F → F → Type 0
  AtMost x m = (x ≼ m) ⊎ (f.le x x ≡ false)

  -- `x` is at least `m`, unless it is NaN
  abbrev pub AtLeast : F → F → Type 0
  AtLeast x m = (m ≼ x) ⊎ (f.le x x ≡ false)

  pub record IsFiniteLimits (limits : RiskLimits F) : Type 0 where
    pub notional_finite : f.is_finite limits.max_order_notional ≡ true
    pub qty_finite : f.is_finite limits.max_order_qty ≡ true
    pub gross_finite : f.is_finite limits.max_gross_leverage ≡ true
    pub net_finite : f.is_finite limits.max_net_leverage ≡ true
    pub concentration_finite : f.is_finite limits.max_concentration_nav_pct ≡ true
    pub margin_finite : f.is_finite limits.min_free_margin ≡ true

  -- Nothing is locked for the order, or what is free after it is no less than the buffer.
  abbrev pub Funded : RiskLimits F → Order F → F → PortfolioRiskState F → Type 0
  Funded limits order ref s =
      (lt nought (locked_cash order s ref) ≡ false)
      ⊎ ((locked : F) × Locked s s.pending_leaves nought locked
          × AtLeast (f.sub (f.sub s.cash locked) (locked_cash order s ref)) limits.min_free_margin)

  pub record WithinRatios (limits : RiskLimits F) (equity gross net target : F) : Type 0 where
    pub gross_within : AtMost (f.div gross equity) limits.max_gross_leverage
    pub net_within : AtMost (f.div (absolute net) equity) limits.max_net_leverage
    pub concentration_within : AtMost (f.div target equity) limits.max_concentration_nav_pct

  pub record Within (listing : List String → List String) (limits : RiskLimits F) (order : Order F)
      (given : Option F) (s : PortfolioRiskState F) (g : Figures F) : Type 0 where
    pub referenced : Referenced given order s g.ref
    pub notional_within : AtMost (f.mul order.quantity g.ref) limits.max_order_notional
    pub funded : Funded limits order g.ref s
    pub valued : Worth order s g.ref s.positions s.cash g.equity
    pub solvent : f.le g.equity nought ≡ false
    pub exposed :
        Exposed order s g.ref
          (listing (add order.symbol (symbols s)))
          nought
          nought
          (g.gross, g.net)
    pub ratios : WithinRatios limits g.equity g.gross g.net (f.mul (exposure order s g.ref) g.ref)

  module _ (laws : IsOrdered F) where
    pub AtMost-of_not-lt : (m x : F) → f.is_finite m ≡ true → lt m x ≡ false → AtMost x m
    AtMost-of_not-lt m x hm h = elim (Bool-cases (f.le x x)) [
      | inl e ↦ inl (ground (arith, laws.le_total m x (laws.le_finite m hm) e))
      | inr e ↦ inr e
    ]

    pub not-lt_of_AtMost : (m x : F) → AtMost x m → lt m x ≡ false
    not-lt_of_AtMost m x h = ground (arith, laws.refl_of_le m x)

    AtLeast-of_not-lt : (m x : F) → f.is_finite m ≡ true → lt x m ≡ false → AtLeast x m
    AtLeast-of_not-lt m x hm h = elim (Bool-cases (f.le x x)) [
      | inl e ↦ inl (ground (arith, laws.le_total m x (laws.le_finite m hm) e))
      | inr e ↦ inr e
    ]

    not-lt_of_AtLeast : (m x : F) → AtLeast x m → lt x m ≡ false
    not-lt_of_AtLeast m x h = ground (arith, laws.refl_of_le x m)

    module _ (limits : RiskLimits F) (bounded : IsFiniteLimits limits) where
      check_ratios_iff :
          (equity gross net target : F)
          → (check_ratios limits equity (gross, net) target ≡ ok tt)
            ↔ WithinRatios limits equity gross net target
      unfolding check_ratios
      check_ratios_iff equity gross net target = (into, back)
        where
          into :
              check_ratios limits equity (gross, net) target ≡ ok tt
              → WithinRatios limits equity gross net target
          into h =
              let (g, h1) = raise_if_ok _ _ _ h in
              let (n, h2) = raise_if_ok _ _ _ h1 in
              let c = raise_if_quiet _ _ h2 in
              record {
                gross_within = AtMost-of_not-lt _ _ bounded.gross_finite g;
                net_within = AtMost-of_not-lt _ _ bounded.net_finite n;
                concentration_within = AtMost-of_not-lt _ _ bounded.concentration_finite c;
              }

          back :
              WithinRatios limits equity gross net target
              → check_ratios limits equity (gross, net) target ≡ ok tt
          back w = rw (
            not-lt_of_AtMost _ _ w.gross_within,
            not-lt_of_AtMost _ _ w.net_within,
            not-lt_of_AtMost _ _ w.concentration_within,
          )

      check_margin_iff :
          (order : Order F) (ref : F) (s : PortfolioRiskState F)
          → (check_margin limits order ref s ≡ ok tt) ↔ Funded limits order ref s
      unfolding check_margin
      check_margin_iff order ref s = rw (required_margin-locked_cash order ref s) (into, back)
        where
          asked : Result (Unit {0})
          asked =
              if lt nought (locked_cash order s ref)
              then (free_margin s >>= λ free.
                  raise_if (lt (f.sub free (locked_cash order s ref)) limits.min_free_margin)
                    insufficient_margin_risk)
              else ok tt

          into : asked ≡ ok tt → Funded limits order ref s
          into h = elim (Bool-cases (lt nought (locked_cash order s ref))) [
            | inr e ↦ inl e
            | inl e ↦
                let (free, got, h1) = bind_ok _ _ (rw e at h) in
                let low = raise_if_quiet _ _ h1 in
                let (locked, w, q) = (free_margin_iff laws s free).0 got in
                inr (locked, w, AtLeast-of_not-lt _ _ bounded.margin_finite (rw (← q) at low))
          ]

          back : Funded limits order ref s → asked ≡ ok tt
          back (inl e) = rw e
          back (inr (locked, w, enough)) = elim (Bool-cases (lt nought (locked_cash order s ref))) [
            | inr e ↦ rw e
            | inl e ↦
                rw (e, (free_margin_iff laws s _).1 (locked, w, refl), not-lt_of_AtLeast _ _ enough)
          ]

      module _ (listing : List String → List String) (order : Order F)
          (positive : IsPositive order.quantity) (given : Option F) (s : PortfolioRiskState F) where
        abbrev Passes : Type 0
        Passes = (g : Figures F) × Within listing limits order given s g

        at_exposure :
            (ref equity gross net : F)
            → check_ratios limits equity (gross, net) (target_exposure order ref s)
              ≡ check_ratios limits equity (gross, net) (f.mul (exposure order s ref) ref)
        at_exposure ref equity gross net =
            ap (check_ratios limits equity (gross, net))
              (target_exposure-exposure laws order ref s positive)

        screen-Passes : screen listing limits order given s ≡ ok tt → Passes
        unfolding screen projected_notionals
        screen-Passes h =
            let (ref, h0, h1) = bind_ok _ _ h in
            let (small, h2) = raise_if_ok _ _ _ h1 in
            let (_, h3, h4) = bind_ok _ _ h2 in
            let (equity, h5, h6) = bind_ok _ _ h4 in
            let (solvent, h7) = raise_if_ok _ _ _ h6 in
            let ((gross, net), h8, h9) = bind_ok _ _ h7 in
            (
              record { ref = ref; equity = equity; gross = gross; net = net },
              record {
                referenced = (reference_price_iff laws given order s ref).0 h0;
                notional_within = AtMost-of_not-lt _ _ bounded.notional_finite small;
                funded = (check_margin_iff order ref s).0 h3;
                valued = (projected_equity_iff laws order ref s equity).0 h5;
                solvent = solvent;
                exposed = (notionals_from_iff laws order ref s positive _ _ _ _).0 h8;
                ratios =
                    (check_ratios_iff equity gross net _).0
                      (sym (at_exposure ref equity gross net) ∙ h9);
              },
            )

        Passes-screen : Passes → screen listing limits order given s ≡ ok tt
        unfolding screen projected_notionals
        Passes-screen (g, w) =
            rw
              (
                (reference_price_iff laws given order s g.ref).1 w.referenced,
                not-lt_of_AtMost _ _ w.notional_within,
                (check_margin_iff order g.ref s).1 w.funded,
                (projected_equity_iff laws order g.ref s g.equity).1 w.valued,
                w.solvent,
                (notionals_from_iff laws order g.ref s positive _ _ _ _).1 w.exposed,
              )
              (at_exposure g.ref g.equity g.gross g.net
                ∙ (check_ratios_iff g.equity g.gross g.net _).1 w.ratios)

        -- The checks from the reference price on pass exactly the orders that are within the limits.
        pub screen_iff :
            (screen listing limits order given s ≡ ok tt)
            ↔ ((g : Figures F) × Within listing limits order given s g)
        screen_iff = (screen-Passes, Passes-screen)
