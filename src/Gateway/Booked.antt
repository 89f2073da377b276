-- ===== src/Gateway/Booked.antt =====
-- The end of every fill and cancellation in src/quant/execution/gateway.py: a report is made, applied to
-- its order, and the token of the order is deregistered.
use quant_stuff.Prelude.{ℕ, ◌≡◌, ◌==◌, refl, ap, true, false, String}
use quant_stuff.Float.{Float}
use quant_stuff.Orders.Types.{ExecutionReport, OrderState}
use quant_stuff.Fsm.{apply_execution_report, can_transition}
use quant_stuff.Fsm.Reports.{apply_execution_report_iff, apply_execution_report_books}
use quant_stuff.Action.{Yields, returns, Yields-bind, yields, always, pure, ◌>>=◌, ◌>>◌}
use quant_stuff.Gateway.Types.{Gateway, write, deregister, make_report, apply_report}
use quant_stuff.Gateway.Submit.Steps.{
  SameTerms, SameAccount, write_self, apply_report_keeps, make_report_eq,
}

module _ {F : Type 0} where
  -- what a booked report leaves behind
  pub record IsBooked (next : OrderState) (ref : ℕ) (g g' : Gateway F) : Type 0 where
    pub account : SameAccount g g'
    pub terms : SameTerms (g.store ref) (g'.store ref)
    pub state : (g'.store ref).state ≡ next
    pub allowed : can_transition (g.store ref).state next ≡ true
    pub others : (q : ℕ) → (q == ref) ≡ false → g'.store q ≡ g.store q
    pub orders : g'.orders ≡ g.orders

  deregister-IsBooked :
      (state : OrderState) (ref : ℕ) (id : String) (g g' : Gateway F)
      → IsBooked state ref g g'
      → IsBooked state ref g (deregister id g').1
  unfolding deregister
  deregister-IsBooked state ref id g g' h = record {
    account = record {
      cash = h.account.cash;
      positions = h.account.positions;
      prices = h.account.prices;
      fee_bps = h.account.fee_bps;
      slippage_bps = h.account.slippage_bps;
    };
    terms = h.terms;
    state = h.state;
    allowed = h.allowed;
    others = h.others;
    orders = h.orders;
  }

  module _ ⦃f : Float F⦄ where
    apply_report-IsBooked :
        (ref : ℕ) (r : ExecutionReport F) (g : Gateway F)
        → Yields (λ _ g'. IsBooked r.exec_type ref g g') (apply_report ref r g)
    unfolding apply_report write
    apply_report-IsBooked ref r g = yields (apply_report ref r g) λ u g' e.
        let (same, terms) = apply_report_keeps ref r g in
        let after : (apply_report ref r g).1 ≡ g' = ap (λ x. x.1) e in
        let accepted = (apply_execution_report_iff (g.store ref) r).0 (ap (λ x. x.0) e) in
        rw (← after) (record {
          account = same;
          terms = terms;
          state =
              rw (write_self ref (apply_execution_report (g.store ref) r).1 g)
                ((apply_execution_report_books (g.store ref) r accepted).0);
          allowed = accepted.allowed;
          others = λ q n. rw n refl;
          orders = refl;
        })

    -- the steps in order, with what they return
    pub booked :
        {A : Type 0} (value : ExecutionReport F → A) (r : ExecutionReport F) (ref : ℕ) (id : String)
        (g : Gateway F)
        → Yields
            (λ a g'. (a ≡ value r) × IsBooked r.exec_type ref g g')
            ((make_report r >>= λ q. apply_report ref q >> (deregister id >> pure (value q))) g)
    booked value r ref id g = Yields-bind (make_report_eq r g) λ q g1 made.
        rw (made.1, made.0)
          (Yields-bind (apply_report-IsBooked ref r g) λ _ g2 h.
            Yields-bind
              (always {P = IsBooked r.exec_type ref g} (deregister id g2)
                (deregister-IsBooked r.exec_type ref id g g2 h))
              λ _ g3 h3. returns (refl, h3))
