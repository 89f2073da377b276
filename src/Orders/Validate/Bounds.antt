-- ===== src/Orders/Validate/Bounds.antt =====
-- What `__post_init__` in src/quant/execution/models.py lets through: INV-GW-005.
use quant_stuff.Prelude.{
  ◌≡◌, true, false, Option, none, some, is_empty, inl, inr, Bool-cases, Option-cases,
}
use quant_stuff.Float.Order.{IsPositive-of_not-le, nonneg_of_not-lt}
use quant_stuff.Float.{Float, lt, nought, IsOrdered, IsNonneg, IsPositive}
use quant_stuff.Orders.Types.{Order, ExecutionReport, ok, ◌>>=◌, invalid_order_input}
use quant_stuff.Orders.Ensures.{
  Ensures, returns, raises, Ensures-bind, ensured, Ensures-raise_if, anything,
}
use quant_stuff.Orders.Validate.{
  Value, OrderArgs, ReportArgs, new_order, new_report, as_str, non_empty_str, optional_str, as_side,
  as_type, as_tif, as_state, timestamp, finite, scalar, positive_scalar, nonneg_scalar,
  optional_price,
}

module _ {F : Type 0} ⦃f : Float F⦄ where
  abbrev pub PriceIsValid : Option F → Type 0
  PriceIsValid none = Unit
  PriceIsValid (some p) = IsPositive p

  pub record IsValid (o : Order F) : Type 0 where
    pub id : is_empty o.cl_ord_id ≡ false
    pub symbol : is_empty o.symbol ≡ false
    pub quantity : IsPositive o.quantity
    pub price : PriceIsValid o.price
    pub stop_price : PriceIsValid o.stop_price
    pub filled_quantity : IsNonneg o.filled_quantity
    pub filled_quote_amount : IsNonneg o.filled_quote_amount
    pub average_price : IsNonneg o.average_price
    pub fees_paid : IsNonneg o.fees_paid

  pub record ReportIsValid (r : ExecutionReport F) : Type 0 where
    pub report_id : is_empty r.report_id ≡ false
    pub id : is_empty r.cl_ord_id ≡ false
    pub symbol : is_empty r.symbol ≡ false
    pub last_quantity : IsNonneg r.last_quantity
    pub last_price : IsNonneg r.last_price
    pub cum_quantity : IsNonneg r.cum_quantity
    pub leaves_quantity : IsNonneg r.leaves_quantity
    pub cum_quote_amount : IsNonneg r.cum_quote_amount
    pub average_price : IsNonneg r.average_price
    pub fee : IsNonneg r.fee

  non_empty_str_lem : (v : Value F) → Ensures (λ s. is_empty s ≡ false) (non_empty_str v)
  unfolding non_empty_str
  non_empty_str_lem v =
      Ensures-bind (anything (as_str v))
        λ s _. Ensures-bind (Ensures-raise_if (is_empty s) invalid_order_input) λ _ e. returns e

  finite_lem : (x : F) → Ensures (λ y. f.is_finite y ≡ true) (finite x)
  unfolding finite
  finite_lem x = elim (Bool-cases (f.is_finite x)) [
    | inl e ↦ rw e (returns e)
    | inr e ↦ rw e raises
  ]

  scalar_lem : (v : Value F) → Ensures (λ y. f.is_finite y ≡ true) (scalar v)
  unfolding scalar
  scalar_lem (Value.flt x) = finite_lem x
  scalar_lem (Value.int n) = elim (Option-cases (f.of_int n)) [
    | inl e ↦ rw (e, scalar) raises
    | inr (x, e) ↦ rw (e, scalar) (finite_lem x)
  ]
  scalar_lem _ = raises

  module _ (laws : IsOrdered F) where
    positive_scalar_lem : (v : Value F) → Ensures IsPositive (positive_scalar v)
    unfolding positive_scalar
    positive_scalar_lem v = Ensures-bind (scalar_lem v) λ x h.
        Ensures-bind (Ensures-raise_if (f.le x nought) invalid_order_input)
          λ _ e. returns (IsPositive-of_not-le laws x h e)

    nonneg_scalar_lem : (v : Value F) → Ensures IsNonneg (nonneg_scalar v)
    unfolding nonneg_scalar
    nonneg_scalar_lem v = Ensures-bind (scalar_lem v) λ x h.
        Ensures-bind (Ensures-raise_if (lt x nought) invalid_order_input)
          λ _ e. returns (nonneg_of_not-lt laws x h e)

    some_price : (v : Value F) → Ensures PriceIsValid (positive_scalar v >>= λ x. ok (some x))
    some_price v = Ensures-bind {g = λ x. ok (some x)} (positive_scalar_lem v) λ x h. returns h

    optional_price_lem : (v : Value F) → Ensures PriceIsValid (optional_price v)
    unfolding optional_price
    optional_price_lem Value.null = returns tt
    optional_price_lem v = some_price v

    new_order-Ensures : (a : OrderArgs F) → Ensures IsValid (new_order a)
    unfolding new_order
    new_order-Ensures a = Ensures-bind (non_empty_str_lem a.cl_ord_id) λ _ id.
        Ensures-bind (non_empty_str_lem a.symbol) λ _ symbol.
          Ensures-bind (anything (optional_str a.exchange_order_id)) λ _ _.
            Ensures-bind (anything (as_side a.side)) λ _ _.
              Ensures-bind (anything (as_type a.order_type)) λ _ _.
                Ensures-bind (anything (as_tif a.time_in_force)) λ _ _.
                  Ensures-bind (anything (as_state a.state)) λ _ _.
                    Ensures-bind (positive_scalar_lem a.quantity) λ _ quantity.
                      Ensures-bind (optional_price_lem a.price) λ _ price.
                        Ensures-bind (optional_price_lem a.stop_price) λ _ stop_price.
                          Ensures-bind (nonneg_scalar_lem a.filled_quantity) λ _ filled_quantity.
                            Ensures-bind (nonneg_scalar_lem a.filled_quote_amount)
                              λ _ filled_quote_amount.
                                Ensures-bind (nonneg_scalar_lem a.average_price) λ _ average_price.
                                  Ensures-bind (nonneg_scalar_lem a.fees_paid) λ _ fees_paid.
                                    Ensures-bind (anything (timestamp a.created_at_ns)) λ _ _.
                                      Ensures-bind (anything (timestamp a.updated_at_ns)) λ _ _.
                                        returns (record {
                                          id = id;
                                          symbol = symbol;
                                          quantity = quantity;
                                          price = price;
                                          stop_price = stop_price;
                                          filled_quantity = filled_quantity;
                                          filled_quote_amount = filled_quote_amount;
                                          average_price = average_price;
                                          fees_paid = fees_paid;
                                        })

    new_report-Ensures : (a : ReportArgs F) → Ensures ReportIsValid (new_report a)
    unfolding new_report
    new_report-Ensures a = Ensures-bind (non_empty_str_lem a.report_id) λ _ report_id.
        Ensures-bind (non_empty_str_lem a.cl_ord_id) λ _ id.
          Ensures-bind (anything (as_str a.exchange_order_id)) λ _ _.
            Ensures-bind (non_empty_str_lem a.symbol) λ _ symbol.
              Ensures-bind (anything (as_str a.text)) λ _ _.
                Ensures-bind (anything (as_side a.side)) λ _ _.
                  Ensures-bind (anything (as_state a.exec_type)) λ _ _.
                    Ensures-bind (nonneg_scalar_lem a.last_quantity) λ _ last_quantity.
                      Ensures-bind (nonneg_scalar_lem a.last_price) λ _ last_price.
                        Ensures-bind (nonneg_scalar_lem a.cum_quantity) λ _ cum_quantity.
                          Ensures-bind (nonneg_scalar_lem a.leaves_quantity) λ _ leaves_quantity.
                            Ensures-bind (nonneg_scalar_lem a.cum_quote_amount)
                              λ _ cum_quote_amount.
                                Ensures-bind (nonneg_scalar_lem a.average_price) λ _ average_price.
                                  Ensures-bind (nonneg_scalar_lem a.fee) λ _ fee.
                                    Ensures-bind (anything (timestamp a.timestamp_ns)) λ _ _.
                                      returns (record {
                                        report_id = report_id;
                                        id = id;
                                        symbol = symbol;
                                        last_quantity = last_quantity;
                                        last_price = last_price;
                                        cum_quantity = cum_quantity;
                                        leaves_quantity = leaves_quantity;
                                        cum_quote_amount = cum_quote_amount;
                                        average_price = average_price;
                                        fee = fee;
                                      })

    -- If the rules of IEEE 754 hold, an order that the constructor lets through has an identifier and a
    -- symbol, a finite positive quantity and prices, and finite amounts that are not negative.
    pub new_order-IsValid : (a : OrderArgs F) (o : Order F) → new_order a ≡ ok o → IsValid o
    new_order-IsValid a o e = ensured o (new_order-Ensures a) e

    -- If the rules of IEEE 754 hold, an execution report that the constructor lets through has its
    -- identifiers and a symbol, and finite amounts that are not negative.
    pub new_report-IsValid :
        (a : ReportArgs F) (r : ExecutionReport F) → new_report a ≡ ok r → ReportIsValid r
    new_report-IsValid a r e = ensured r (new_report-Ensures a) e
