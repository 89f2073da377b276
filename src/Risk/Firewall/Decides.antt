-- ===== src/Risk/Firewall/Decides.antt =====
-- The whole of `validate_order` of src/quant/execution/risk.py: which orders pass, and what it changes.
use quant_stuff.Prelude.{
  ◌≡◌, refl, inl, inr, ◌↔◌, false, Option, none, some, String, List, arith, Bool-cases,
}
use quant_stuff.Float.{Float, IsOrdered, lt, fmax, IsPositive, nought, ◌≼◌}
use quant_stuff.Float.Order.{IsPositive-of_not-le}
use quant_stuff.Orders.Types.{
  Order, Result, ok, raise_if, raise_if_quiet, raise_if_ok, bind_ok, drawdown_limit_exceeded,
  fat_finger_quantity, ◌>>=◌, ◌>>◌,
}
use quant_stuff.Orders.Validate.{Value}
use quant_stuff.Action.{Result-cases}
use quant_stuff.Risk.Limits.{RiskLimits}
use quant_stuff.Risk.State.{PortfolioRiskState, current_equity, drawdown_of, intraday_drawdown}
use quant_stuff.Risk.Firewall.{sound, sound_price, market_price, sanitise, screen, validate_order}
use quant_stuff.Risk.Firewall.Projection.{Marked}
use quant_stuff.Risk.Firewall.Accounts.{current_equity_iff}
use quant_stuff.Risk.Firewall.Within.{
  AtMost, IsFiniteLimits, Figures, Within, screen_iff, AtMost-of_not-lt, not-lt_of_AtMost,
}

module _ {F : Type 0} ⦃f : Float F⦄ where
  abbrev IsSoundPrice : Option F → Type 0
  IsSoundPrice none = Unit
  IsSoundPrice (some p) = IsPositive p

  -- the state once its peak is no lower than an equity
  abbrev pub peaked : PortfolioRiskState F → F → PortfolioRiskState F
  peaked s equity = record s { peak_equity = fmax s.peak_equity equity }

  -- The result alone: the checks as a chain, each in the state that it finds.
  abbrev verdict :
      (List String → List String)
      → RiskLimits F
      → Order F
      → Value F
      → PortfolioRiskState F
      → Result (Unit {0})
  verdict listing limits order current_price s = do
    given ← sanitise order current_price
    equity ← current_equity s
    raise_if
        (f.le limits.max_intraday_drawdown_pct (drawdown_of (fmax s.peak_equity equity) equity))
        drawdown_limit_exceeded
    raise_if (lt limits.max_order_qty order.quantity) fat_finger_quantity
    screen listing limits order given (peaked s equity)

  pub validate_order-verdict :
      (listing : List String → List String) (limits : RiskLimits F) (order : Order F)
      (current_price : Value F) (s : PortfolioRiskState F)
      → (validate_order listing limits order current_price s).0
        ≡ verdict listing limits order current_price s
  unfolding validate_order intraday_drawdown
  validate_order-verdict listing limits order current_price s =
      elim (Result-cases (sanitise order current_price)) [
        | inl (e, p) ↦ rw p
        | inr (given, p) ↦ elim (Result-cases (current_equity s)) [
          | inl (e, q) ↦ rw (p, intraday_drawdown, q)
          | inr (equity, q) ↦ rw (p, intraday_drawdown, q) (ground arith)
        ]
      ]

  -- The drop from a positive peak, in parts of it, is below its limit. Without one, equity is positive
  -- and the limit too, or equity is not and the limit exceeds one.
  pub data IsCalm (limits : RiskLimits F) (peak equity : F) : Type 0 where
    dropped :
        f.le peak nought ≡ false
        → f.le limits.max_intraday_drawdown_pct (fmax nought (f.div (f.sub peak equity) peak))
          ≡ false
        → IsCalm limits peak equity
    wiped_out :
        peak ≼ nought
        → equity ≼ nought
        → f.le limits.max_intraday_drawdown_pct (f.lit 1 0) ≡ false
        → IsCalm limits peak equity
    recovered :
        peak ≼ nought
        → f.le equity nought ≡ false
        → f.le limits.max_intraday_drawdown_pct nought ≡ false
        → IsCalm limits peak equity

  drawdown_iff :
      (limits : RiskLimits F) (peak equity : F)
      → (f.le limits.max_intraday_drawdown_pct (drawdown_of peak equity) ≡ false)
        ↔ IsCalm limits peak equity
  unfolding drawdown_of
  drawdown_iff limits peak equity = (into, back)
    where
      into :
          f.le limits.max_intraday_drawdown_pct (drawdown_of peak equity) ≡ false
          → IsCalm limits peak equity
      into h = elim (Bool-cases (f.le peak nought)) [
        | inr e ↦ dropped e (rw (drawdown_of, e) at h)
        | inl e ↦ elim (Bool-cases (f.le equity nought)) [
          | inl g ↦ wiped_out e g (rw (drawdown_of, e, g) at h)
          | inr g ↦ recovered e g (rw (drawdown_of, e, g) at h)
        ]
      ]

      back :
          IsCalm limits peak equity
          → f.le limits.max_intraday_drawdown_pct (drawdown_of peak equity) ≡ false
      back (dropped e h) = rw (drawdown_of, e) h
      back (wiped_out e g h) = rw (drawdown_of, e, g) h
      back (recovered e g h) = rw (drawdown_of, e, g) h

  -- What an order must meet, in its own numbers and in the figures of the state.
  pub record Admits (listing : List String → List String) (limits : RiskLimits F) (order : Order F)
      (current_price : Value F) (s : PortfolioRiskState F) (given : Option F) (equity : F)
      (g : Figures F) : Type 0 where
    pub quantity_positive : IsPositive order.quantity
    pub price_positive : IsSoundPrice order.price
    pub market : market_price current_price ≡ ok given
    pub valued_now : Marked s s.positions s.cash equity
    pub calm : IsCalm limits (fmax s.peak_equity equity) equity
    pub quantity_within : AtMost order.quantity limits.max_order_qty
    pub within : Within listing limits order given (peaked s equity) g

  module _ (laws : IsOrdered F) where
    sound_iff : (x : F) → (sound x ≡ ok tt) ↔ IsPositive x
    unfolding sound
    sound_iff x = (into, back)
      where
        into : sound x ≡ ok tt → IsPositive x
        into h =
            IsPositive-of_not-le laws x (ground (arith, raise_if_quiet _ _ h))
              (ground (arith, raise_if_quiet _ _ h))

        back : IsPositive x → sound x ≡ ok tt
        back p = ground arith

    sound_price_iff : (x : Option F) → (sound_price x ≡ ok tt) ↔ IsSoundPrice x
    unfolding sound_price
    sound_price_iff none = (λ h. tt, λ h. refl)
    sound_price_iff (some p) = sound_iff p

    module _ (limits : RiskLimits F) (bounded : IsFiniteLimits limits)
        (listing : List String → List String) (order : Order F) (current_price : Value F)
        (s : PortfolioRiskState F) where
      abbrev Admitted : Type 0
      Admitted =
          (given : Option F) × (equity : F) × (g : Figures F) × Admits listing limits order
            current_price s given equity g

      verdict-Admitted : verdict listing limits order current_price s ≡ ok tt → Admitted
      unfolding sanitise
      verdict-Admitted h =
          let (given, h0, h1) = bind_ok _ _ h in
          let (_, q, h2) = bind_ok _ _ h0 in
          let (_, p, h3) = bind_ok _ _ h2 in
          let (equity, v, h4) = bind_ok _ _ h1 in
          let (calm, h5) = raise_if_ok _ _ _ h4 in
          let (few, h6) = raise_if_ok _ _ _ h5 in
          let (g, w) =
            (screen_iff laws limits bounded listing order ((sound_iff _).0 q) given
                (peaked s equity)).0
              h6 in
          (
            given,
            equity,
            g,
            record {
              quantity_positive = (sound_iff _).0 q;
              price_positive = (sound_price_iff _).0 p;
              market = h3;
              valued_now = (current_equity_iff laws s equity).0 v;
              calm = (drawdown_iff limits _ equity).0 calm;
              quantity_within = AtMost-of_not-lt laws _ _ bounded.qty_finite few;
              within = w;
            },
          )

      Admitted-verdict : Admitted → verdict listing limits order current_price s ≡ ok tt
      unfolding sanitise
      Admitted-verdict (given, equity, g, a) =
          rw
            (
              (sound_iff _).1 a.quantity_positive,
              (sound_price_iff _).1 a.price_positive,
              a.market,
              (current_equity_iff laws s equity).1 a.valued_now,
              (drawdown_iff limits _ equity).1 a.calm,
              not-lt_of_AtMost laws _ _ a.quantity_within,
            )
            ((screen_iff laws limits bounded listing order a.quantity_positive given
                (peaked s equity)).1
              (g, a.within))

      -- If the rules of IEEE 754 hold and the limits are finite, `validate_order` returns exactly for
      -- the orders that the limits admit: the quantity and the prices given are finite and positive, the
      -- positions can be valued, the drawdown is below its limit, and no limit is exceeded by the
      -- quantity, the notional at the reference price, the cash that it locks, and the leverage and the
      -- concentration of the portfolio with the order at work. Cash is locked for the part of the order
      -- that closes nothing, beside what pending buys cost and pending sells would open. The order's symbol is valued at the reference price, any other at the one
      -- noted. What is held and pending is netted where the leaves, with the order, go against the
      -- position, as a sell does with a long one and a buy with a short one, and added elsewhere. A
      -- figure that is NaN exceeds no limit.
      pub validate_order_iff : ((validate_order listing limits order current_price s).0 ≡ ok tt) ↔ (
          (given : Option F) × (equity : F) × (g : Figures F) × Admits listing limits order
            current_price s given equity g)
      validate_order_iff =
          rw (validate_order-verdict listing limits order current_price s)
            (verdict-Admitted, Admitted-verdict)
