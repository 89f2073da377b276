-- ===== src/Gateway/Cancel/Effects.antt =====
-- What `cancel_order` of src/quant/execution/gateway.py changes and what it leaves alone.
use quant_stuff.Prelude.{ℕ, suc, ◌≡◌, refl, not, some, String, strip, inl, inr, Option-cases}
use quant_stuff.Prelude.Dict.{lookup}
use quant_stuff.Float.{Float, nought}
use quant_stuff.Orders.Types.{
  Order, ExecutionReport, cancelled, is_terminal, ok, gateway_disconnected,
  invalid_state_transition,
}
use quant_stuff.Orders.Validate.{Value}
use quant_stuff.Idempotency.{text_argument}
use quant_stuff.Action.{
  Yields, returns, raises, Yields-bind, Yields-map, yielded, checked, raise_when, always,
}
use quant_stuff.Gateway.Types.{Gateway, World, count_report, exchange_id, report_id, sleep}
use quant_stuff.Gateway.Submit.Steps.{raise_when_keeps}
use quant_stuff.Gateway.Booked.{IsBooked, booked}
use quant_stuff.Gateway.Cancel.{cancel_report, cancel_at, find, cancel_order}

module _ {F : Type 0} where
  counted-IsBooked :
      (n ref : ℕ) (g g' : Gateway F)
      → IsBooked cancelled ref (record g { report_counter = n }) g'
      → IsBooked cancelled ref g g'
  counted-IsBooked n ref g g' h = record {
    account = record {
      cash = h.account.cash;
      positions = h.account.positions;
      prices = h.account.prices;
      fee_bps = h.account.fee_bps;
      slippage_bps = h.account.slippage_bps;
    };
    terms = h.terms;
    state = h.state;
    allowed = h.allowed;
    others = h.others;
    orders = h.orders;
  }

  module _ ⦃f : Float F⦄ where
    -- the report of a cancellation: what was filled before, and nothing new
    pub record ReportsCancel (w : World) (n : ℕ) (o : Order F) (r : ExecutionReport F)
        : Type 0 where
      pub kind : r.exec_type ≡ cancelled
      pub same_id : r.cl_ord_id ≡ o.cl_ord_id
      pub same_exchange_id : r.exchange_order_id ≡ exchange_id o
      pub same_symbol : r.symbol ≡ o.symbol
      pub same_side : r.side ≡ o.side
      pub filled_so_far : r.cum_quantity ≡ o.filled_quantity
      pub quote_so_far : r.cum_quote_amount ≡ o.filled_quote_amount
      pub average_so_far : r.average_price ≡ o.average_price
      pub no_fill : (r.last_quantity ≡ nought) × (r.last_price ≡ nought) × (r.fee ≡ nought)
      pub no_leaves : r.leaves_quantity ≡ nought
      pub numbered : r.report_id ≡ report_id w n
      pub at_time : r.timestamp_ns ≡ w.now n

    cancel_report-ReportsCancel :
        (w : World) (n : ℕ) (o : Order F) → ReportsCancel w n o (cancel_report w n o)
    unfolding cancel_report
    cancel_report-ReportsCancel w n o = record {
      kind = refl;
      same_id = refl;
      same_exchange_id = refl;
      same_symbol = refl;
      same_side = refl;
      filled_so_far = refl;
      quote_so_far = refl;
      average_so_far = refl;
      no_fill = (refl, refl, refl);
      no_leaves = refl;
      numbered = refl;
      at_time = refl;
    }

    -- the cancellation of an order of the registry
    pub record Cancels (w : World) (id : String) (g : Gateway F) (r : ExecutionReport F)
        (g' : Gateway F) : Type 0 where
      pub ref : ℕ
      pub found : lookup id g.orders ≡ some ref
      pub report : r ≡ cancel_report w (suc g.report_counter) (g.store ref)
      pub details : ReportsCancel w (suc g.report_counter) (g.store ref) r
      pub booked : IsBooked cancelled ref g g'

    find-Yields :
        (id : String) (g : Gateway F)
        → Yields (λ ref g'. (g' ≡ g) × (lookup id g.orders ≡ some ref)) (find id g)
    unfolding find
    find-Yields id g = elim (Option-cases (lookup id g.orders)) [
      | inl e ↦ rw (e, find) raises
      | inr (ref, e) ↦ rw (e, find) (returns (refl, refl))
    ]

    cancel_at-Yields :
        (w : World) (ref : ℕ) (g : Gateway F)
        → Yields
            (λ r g'.
              (r ≡ cancel_report w (suc g.report_counter) (g.store ref))
              × IsBooked cancelled ref g g')
            (cancel_at w ref g)
    unfolding cancel_at count_report cancel_report
    cancel_at-Yields w ref g =
        let over = is_terminal (g.store ref) in
        Yields-bind {P = λ _ s. s ≡ g}
          (always (raise_when over invalid_state_transition g)
            (raise_when_keeps over invalid_state_transition g))
          λ _ g1 e1. rw e1 (
            let o = g.store ref in
            let n = suc g.report_counter in
            Yields-map
              (booked (λ r. r) (cancel_report w n o) ref o.cl_ord_id
                (record g { report_counter = n }))
              λ r g' h. (h.0, counted-IsBooked n ref g g' (h.1)))

    pub cancel_order-Yields :
        (w : World) (other : Gateway F → Gateway F) (v : Value F) (g : Gateway F)
        → Yields
            (λ r g'.
              (id : String) × (text_argument v ≡ ok id)
              × Cancels w (strip id) (sleep other g).1 r g')
            (cancel_order w other v g)
    unfolding cancel_order sleep
    cancel_order-Yields w other v g =
        let connected = not g.is_connected in
        Yields-bind {P = λ _ s. s ≡ g}
          (always (raise_when connected gateway_disconnected g)
            (raise_when_keeps connected gateway_disconnected g))
          λ _ g1 e1. Yields-bind (checked (text_argument v) g1) λ id g2 e2.
            rw (e2.0, e1)
              (Yields-bind (find-Yields (strip id) (sleep other g).1) λ ref g3 h3. rw (h3.0) (
                Yields-map (cancel_at-Yields w ref (sleep other g).1) λ r g' h. (
                  id,
                  e2.1,
                  record {
                    ref = ref;
                    found = h3.1;
                    report = h.0;
                    details =
                        rw (h.0) (cancel_report-ReportsCancel w _ ((sleep other g).1.store ref));
                    booked = h.1;
                  },
                )))

    -- If `cancel_order` returns, its argument is a text that is not blank and names an order of the
    -- registry by what is left when spaces around it are stripped. The report names
    -- that order, says CANCELLED, has the quantity, the quote amount and the average price filled so far,
    -- and no new fill, fee or leaves. The order could be cancelled and is CANCELLED, its terms
    -- and every other order are as they were, and so are cash and positions.
    pub cancel_order-Cancels :
        (w : World) (other : Gateway F → Gateway F) (v : Value F) (g : Gateway F)
        (r : ExecutionReport F) (g' : Gateway F)
        → cancel_order w other v g ≡ (ok r, g')
        → (id : String) × (text_argument v ≡ ok id) × Cancels w (strip id) (sleep other g).1 r g'
    cancel_order-Cancels w other v g r g' e = yielded r g' (cancel_order-Yields w other v g) e
