-- ===== src/Orders/Validate/Accepts.antt =====
-- What `__post_init__` in src/quant/execution/models.py does not refuse, and that it keeps the values.
use quant_stuff.Prelude.{
  ◌≡◌, refl, inl, inr, Option, none, some, String, is_empty, Bool-cases, arith,
}
use quant_stuff.Float.{Float, lt, nought, IsNonneg, IsPositive}
use quant_stuff.Orders.Types.{Order, ExecutionReport, ok, invalid_order_input}
use quant_stuff.Orders.Ensures.{Ensures, returns, raises, Ensures-bind, ensured, Ensures-raise_if}
use quant_stuff.Orders.Validate.{
  Value, optional_value, order_args, report_args, new_order, new_report, as_str, non_empty_str,
  optional_str, as_side, as_type, as_tif, as_state, timestamp, finite, scalar, positive_scalar,
  nonneg_scalar, optional_price,
}
use quant_stuff.Orders.Validate.Bounds.{PriceIsValid, IsValid, ReportIsValid}

module _ (F : Type 0) where
  optional_str_accepts :
      (s : Option String) → optional_str {F = F} (optional_value Value.str s) ≡ ok s
  unfolding optional_str
  optional_str_accepts none = refl
  optional_str_accepts (some s) = refl

  non_empty_str_keeps : (s : String) → Ensures (λ t. t ≡ s) (non_empty_str {F = F} (Value.str s))
  unfolding non_empty_str
  non_empty_str_keeps s =
      Ensures-bind (Ensures-raise_if (is_empty s) invalid_order_input) λ _ _. returns refl

module _ {F : Type 0} ⦃f : Float F⦄ where
  nonneg_scalar_accepts : (x : F) → IsNonneg x → nonneg_scalar (Value.flt x) ≡ ok x
  unfolding nonneg_scalar
  nonneg_scalar_accepts x h = ground arith

  positive_scalar_accepts : (x : F) → IsPositive x → positive_scalar (Value.flt x) ≡ ok x
  unfolding positive_scalar
  positive_scalar_accepts x h = ground arith

  optional_price_accepts :
      (p : Option F) → PriceIsValid p → optional_price (optional_value Value.flt p) ≡ ok p
  unfolding optional_price
  optional_price_accepts none h = refl
  optional_price_accepts (some x) h = ground (arith, positive_scalar_accepts x h)

  -- An order whose fields are valid is let through, with the values that were passed.
  pub new_order-order_args : (o : Order F) → IsValid o → new_order (order_args o) ≡ ok o
  unfolding new_order non_empty_str as_side as_type as_tif as_state timestamp
  new_order-order_args o v = rw (
    v.id,
    v.symbol,
    optional_str_accepts F o.exchange_order_id,
    positive_scalar_accepts o.quantity v.quantity,
    optional_price_accepts o.price v.price,
    optional_price_accepts o.stop_price v.stop_price,
    nonneg_scalar_accepts o.filled_quantity v.filled_quantity,
    nonneg_scalar_accepts o.filled_quote_amount v.filled_quote_amount,
    nonneg_scalar_accepts o.average_price v.average_price,
    nonneg_scalar_accepts o.fees_paid v.fees_paid,
  )

  -- An execution report whose fields are valid is let through, with the values that were passed.
  pub new_report-report_args :
      (r : ExecutionReport F) → ReportIsValid r → new_report (report_args r) ≡ ok r
  unfolding new_report non_empty_str as_str as_side as_state timestamp
  new_report-report_args r v = rw (
    v.report_id,
    v.id,
    v.symbol,
    nonneg_scalar_accepts r.last_quantity v.last_quantity,
    nonneg_scalar_accepts r.last_price v.last_price,
    nonneg_scalar_accepts r.cum_quantity v.cum_quantity,
    nonneg_scalar_accepts r.leaves_quantity v.leaves_quantity,
    nonneg_scalar_accepts r.cum_quote_amount v.cum_quote_amount,
    nonneg_scalar_accepts r.average_price v.average_price,
    nonneg_scalar_accepts r.fee v.fee,
  )

  finite_keeps : (x : F) → Ensures (λ y. y ≡ x) (finite x)
  unfolding finite
  finite_keeps x = elim (Bool-cases (f.is_finite x)) [
    | inl e ↦ rw e (returns refl)
    | inr e ↦ rw e raises
  ]

  nonneg_scalar_keeps : (x : F) → Ensures (λ y. y ≡ x) (nonneg_scalar (Value.flt x))
  unfolding nonneg_scalar scalar
  nonneg_scalar_keeps x =
      Ensures-bind (finite_keeps x)
        λ y e. Ensures-bind (Ensures-raise_if (lt y nought) invalid_order_input) λ _ _. returns e

  new_report_keeps : (r : ExecutionReport F) → Ensures (λ q. q ≡ r) (new_report (report_args r))
  unfolding new_report as_str as_side as_state timestamp
  new_report_keeps r = Ensures-bind (non_empty_str_keeps F r.report_id) λ _ e1.
      Ensures-bind (non_empty_str_keeps F r.cl_ord_id) λ _ e2.
        Ensures-bind (non_empty_str_keeps F r.symbol) λ _ e3.
          Ensures-bind (nonneg_scalar_keeps r.last_quantity) λ _ e4.
            Ensures-bind (nonneg_scalar_keeps r.last_price) λ _ e5.
              Ensures-bind (nonneg_scalar_keeps r.cum_quantity) λ _ e6.
                Ensures-bind (nonneg_scalar_keeps r.leaves_quantity) λ _ e7.
                  Ensures-bind (nonneg_scalar_keeps r.cum_quote_amount) λ _ e8.
                    Ensures-bind (nonneg_scalar_keeps r.average_price) λ _ e9.
                      Ensures-bind (nonneg_scalar_keeps r.fee) λ _ e10. returns (ground arith)

  -- A report that is built from typed fields and let through has just those fields.
  pub eq_of_new_report : (r q : ExecutionReport F) → new_report (report_args r) ≡ ok q → q ≡ r
  eq_of_new_report r q e = ensured q (new_report_keeps r) e
