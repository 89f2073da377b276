-- ===== src/Risk/Session.antt =====
-- A session of PortfolioRiskState in src/quant/execution/risk.py: prices, fills and orders that are
-- checked, in any order and with any arguments.
use mathlib.Core.Path.{subst}
use quant_stuff.Prelude.{
  ◌≡◌, refl, ap, inl, inr, true, String, List, [], ◌∷◌, arith, Bool-cases, All,
}
use quant_stuff.Prelude.Dict.{values, insert}
use quant_stuff.Float.{Float, IsOrdered, lt, fmax, ◌≼◌, IsPositive}
use quant_stuff.Float.Order.{IsPositive-of_not-le}
use quant_stuff.Orders.Types.{Order, OrderSide, ok, bind_ok, raise_if_ok, ok_injective}
use quant_stuff.Orders.Validate.{Value}
use quant_stuff.Action.{Result-cases, ends}
use quant_stuff.Risk.Limits.{RiskLimits, positive_risk_scalar, risk_scalar, risk_symbol}
use quant_stuff.Risk.State.{
  PortfolioRiskState, current_equity, intraday_drawdown, drawdown_of, amount,
}
use quant_stuff.Risk.Updates.{refresh_peak, update_price, update_fill, filled_state, risk_side}
use quant_stuff.Risk.Updates.Leaves.{IsFinite, Shrinks, keeps, reconcile_leaves-Shrinks}
use quant_stuff.Risk.Firewall.{sanitise, validate_order}

pub data Call (F : Type 0) : Type 0 where
  new_price : Value F → Value F → Call F
  fill : Value F → Value F → Value F → Value F → Call F
  check_order : (List String → List String) → RiskLimits F → Order F → Value F → Call F

module _ {F : Type 0} ⦃f : Float F⦄ where
  -- the state after a call, whether it raises or not
  pub after : Call F → PortfolioRiskState F → PortfolioRiskState F
  after (new_price symbol p) s = (update_price symbol p s).1
  after (fill symbol qty p side) s = (update_fill symbol qty p side s).1
  after (check_order listing limits order p) s = (validate_order listing limits order p s).1

  pub run : List (Call F) → PortfolioRiskState F → PortfolioRiskState F
  run [] s = s
  run (c ∷ cs) s = run cs (after c s)

  -- What `validate_order` may change.
  pub data PeakOnly (s : PortfolioRiskState F) : PortfolioRiskState F → Type 0 where
    unchanged : PeakOnly s s
    raised_to :
        (equity : F)
        → current_equity s ≡ ok equity
        → PeakOnly s (record s { peak_equity = fmax s.peak_equity equity })

  validate_order-PeakOnly :
      (listing : List String → List String) (limits : RiskLimits F) (order : Order F) (p : Value F)
      (s : PortfolioRiskState F)
      → PeakOnly s (validate_order listing limits order p s).1
  unfolding validate_order intraday_drawdown
  validate_order-PeakOnly listing limits order p s = elim (Result-cases (sanitise order p)) [
    | inl (e, q) ↦ rw q unchanged
    | inr (given, q) ↦ elim (Result-cases (current_equity s)) [
      | inl (e, r) ↦ rw (q, intraday_drawdown, r) unchanged
      | inr (equity, r) ↦
          rw (q, intraday_drawdown, r)
            (elim (Bool-cases (
              f.le limits.max_intraday_drawdown_pct
                (drawdown_of (fmax s.peak_equity equity) equity))) [
                  | inl c ↦ rw c (raised_to equity r)
                  | inr c ↦ elim (Bool-cases (lt limits.max_order_qty order.quantity)) [
                    | inl d ↦ rw (c, d) (raised_to equity r)
                    | inr d ↦ rw (c, d) (raised_to equity r)
                  ]
                ])
    ]
  ]

  refresh_peak-PeakOnly : (s : PortfolioRiskState F) → PeakOnly s (refresh_peak s).1
  unfolding refresh_peak
  refresh_peak-PeakOnly s = elim (Result-cases (current_equity s)) [
    | inl (e, r) ↦ rw (r, refresh_peak) unchanged
    | inr (equity, r) ↦ rw (r, refresh_peak) (raised_to equity r)
  ]

  PeakOnly-leaves :
      (s t : PortfolioRiskState F) → PeakOnly s t → t.pending_leaves ≡ s.pending_leaves
  PeakOnly-leaves s t unchanged = refl
  PeakOnly-leaves s t (raised_to equity e) = refl

  abbrev Rises : PortfolioRiskState F → PortfolioRiskState F → Type 0
  Rises s t = s.peak_equity ≼ t.peak_equity

  PeakOnly-Rises :
      (s t : PortfolioRiskState F) → s.peak_equity ≼ s.peak_equity → PeakOnly s t → Rises s t
  PeakOnly-Rises s t h unchanged = h
  PeakOnly-Rises s t h (raised_to equity e) = ground arith

  -- How `update_fill` ends: as it began, or with the fill of checked arguments.
  module _ (P : PortfolioRiskState F → Type 0) (s : PortfolioRiskState F) (start : P s) where
    update_fill-ends :
        (symbol filled_qty price side : Value F)
        → ((d : OrderSide) (sym : String) (qty p : F)
            → positive_risk_scalar filled_qty ≡ ok qty
            → P (refresh_peak (filled_state d sym qty p s)).1)
        → P (update_fill symbol filled_qty price side s).1
    unfolding update_fill
    update_fill-ends symbol filled_qty price side h =
        ends P (risk_symbol symbol, s) _ start
          λ sym _.
            ends P (positive_risk_scalar filled_qty, s) _ start
              λ qty e.
                ends P (positive_risk_scalar price, s) _ start
                  λ p _. ends P (risk_side side, s) _ start λ d _. h d sym qty p (ap (λ r. r.0) e)

    update_price-ends :
        (symbol price : Value F)
        → ((sym : String) (p : F)
            → P (refresh_peak (record s { current_prices = insert sym p s.current_prices })).1)
        → P (update_price symbol price s).1
    unfolding update_price
    update_price-ends symbol price h =
        ends P (risk_symbol symbol, s) _ start
          λ sym _. ends P (positive_risk_scalar price, s) _ start λ p _. h sym p

  after-Rises :
      (c : Call F) (s : PortfolioRiskState F) → s.peak_equity ≼ s.peak_equity → Rises s (after c s)
  unfolding after filled_state
  after-Rises (Call.new_price symbol p) s h = update_price-ends (Rises s) s h symbol p λ sym x.
      PeakOnly-Rises (record s { current_prices = insert sym x s.current_prices }) _ h
        (refresh_peak-PeakOnly _)
  after-Rises (Call.fill symbol qty p side) s h =
      update_fill-ends (Rises s) s h symbol qty p side
        λ d sym q x _. PeakOnly-Rises (filled_state d sym q x s) _ h (refresh_peak-PeakOnly _)
  after-Rises (Call.check_order listing limits order p) s h =
      PeakOnly-Rises s _ h (validate_order-PeakOnly listing limits order p s)

  module _ (laws : IsOrdered F) where
    -- Over any sequence of price updates, fills and checks of orders, raising or not, the high-water
    -- mark never falls, if it is not NaN at the start.
    pub run-peak :
        (cs : List (Call F)) (s : PortfolioRiskState F)
        → s.peak_equity ≼ s.peak_equity
        → s.peak_equity ≼ (run cs s).peak_equity
    unfolding run
    run-peak [] s h = h
    run-peak (c ∷ cs) s h =
        let first = after-Rises c s h in
        laws.le_trans _ _ _ first (run-peak cs (after c s) ((laws.refl_of_le _ _ first).1))

    risk_scalar-finite : (v : Value F) (x : F) → risk_scalar v ≡ ok x → f.is_finite x ≡ true
    unfolding risk_scalar
    risk_scalar-finite v x h = ground arith

    pub positive_risk_scalar-IsPositive :
        (v : Value F) (x : F) → positive_risk_scalar v ≡ ok x → IsPositive x
    unfolding positive_risk_scalar
    positive_risk_scalar-IsPositive v x h =
        let (y, e, h1) = bind_ok _ _ h in
        let (low, h2) = raise_if_ok _ _ _ h1 in
        subst IsPositive (ok_injective h2)
          (IsPositive-of_not-le laws y (risk_scalar-finite v y e) low)

    -- However `update_fill` ends, the pending leaves of every symbol stay as they are or move towards
    -- nought without passing it, if the pending leaves are finite.
    pub update_fill-leaves :
        (symbol filled_qty price side : Value F) (s : PortfolioRiskState F) (k : String)
        → All IsFinite (values s.pending_leaves)
        → Shrinks
            (amount k s.pending_leaves)
            (amount k (update_fill symbol filled_qty price side s).1.pending_leaves)
    unfolding filled_state
    update_fill-leaves symbol filled_qty price side s k h =
        update_fill-ends (λ t. Shrinks (amount k s.pending_leaves) (amount k t.pending_leaves)) s
          (keeps refl) symbol filled_qty price side
          λ d sym qty p e.
            rw (PeakOnly-leaves _ _ (refresh_peak-PeakOnly (filled_state d sym qty p s))) (
              reconcile_leaves-Shrinks laws qty (positive_risk_scalar-IsPositive _ qty e) d sym k
                s.pending_leaves h)
