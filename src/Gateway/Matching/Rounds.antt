-- ===== src/Gateway/Matching/Rounds.antt =====
-- A round of the loop in `set_market_price` of src/quant/execution/gateway.py.
use quant_stuff.Prelude.{
  ℕ, suc, ◌≡◌, refl, sym, ◌∙◌, ◌==◌, true, false, Option, none, some, String, arith, inl, inr,
  Bool-cases, Option-cases,
}
use mathlib.Core.Option.{some-injective}
use quant_stuff.Float.{Float}
use quant_stuff.Orders.Types.{Order, ExecutionReport, OrderSide, buy, sell, filled, is_active}
use quant_stuff.Action.{Yields, returns, raises, Yields-map}
use quant_stuff.Gateway.Types.{Gateway, World, NoWorse, count_report, fee_of, settle}
use quant_stuff.Gateway.Submit.Steps.{SameTerms}
use quant_stuff.Gateway.Submit.Limits.{no_worse}
use quant_stuff.Gateway.Booked.{IsBooked, booked}
use quant_stuff.Gateway.Account.{account, account_eq, post, settle_account}
use quant_stuff.Gateway.Matching.{meets, rests_for, match_report, fill_resting, match_order}

module _ {F : Type 0} ⦃f : Float F⦄ where
  -- an order that no price of the market at `price` fills
  abbrev pub IsClear : String → F → Order F → Type 0
  IsClear symbol price o =
      (p : F) → rests_for symbol o ≡ true → o.price ≡ some p → meets o.side p price ≡ false

  -- a report of the whole fill of an order, at the price of the market and within its limit
  pub record IsMatch (symbol : String) (mkt : F) (r : ExecutionReport F) (o : Order F)
      : Type 0 where
    pub id : r.cl_ord_id ≡ o.cl_ord_id
    pub side : r.side ≡ o.side
    pub of_symbol : r.symbol ≡ symbol
    pub exec_type : r.exec_type ≡ filled
    pub quantity : r.last_quantity ≡ o.quantity
    pub last_price : r.last_price ≡ mkt
    pub state : o.state ≡ filled
    pub limit : F
    pub price : o.price ≡ some limit
    pub no_worse : NoWorse o.side mkt limit

  -- an order is left as it is or filled
  pub data Moves (o o' : Order F) : Type 0 where
    kept : o' ≡ o → Moves o o'
    fills : is_active o ≡ true → o'.state ≡ filled → Moves o o'

  pub Moves-trans : (o p q : Order F) → Moves o p → Moves p q → Moves o q
  Moves-trans o p q (kept e) (kept e') = kept (e' ∙ e)
  Moves-trans o p q (kept e) (fills a s) = fills (rw (← e) a) s
  Moves-trans o p q (fills a s) (kept e) = fills a (rw e s)
  Moves-trans o p q (fills a s) (fills a' s') = fills a s'

  pub Moves-filled : (o o' : Order F) → Moves o o' → o.state ≡ filled → o' ≡ o
  Moves-filled o o' (kept e) h = e
  Moves-filled o o' (fills a s) h = ground arith

  filled-IsClear :
      (symbol : String) (price : F) (o : Order F) → o.state ≡ filled → IsClear symbol price o
  unfolding rests_for
  filled-IsClear symbol price o h = λ p k e. ground arith

  pub Moves-IsClear :
      (symbol : String) (price : F) (o o' : Order F)
      → Moves o o'
      → IsClear symbol price o
      → IsClear symbol price o'
  Moves-IsClear symbol price o o' (kept e) h = rw e h
  Moves-IsClear symbol price o o' (fills a s) h = filled-IsClear symbol price o' s

  pub record Round (symbol : String) (price : F) (ref : ℕ) (g : Gateway F)
      (a : Option (ExecutionReport F)) (g' : Gateway F) : Type 0 where
    pub posted : account g' ≡ elim a [ none ↦ account g | some r ↦ post r (account g) ]
    pub moves : (q : ℕ) → Moves (g.store q) (g'.store q)
    pub orders : g'.orders ≡ g.orders
    pub clear : IsClear symbol price (g'.store ref)
    pub reported : (r : ExecutionReport F) → a ≡ some r → IsMatch symbol price r (g'.store ref)

  settle_keeps :
      (side : OrderSide) (sym : String) (qty n fee : F) (g : Gateway F)
      → ((settle side sym qty n fee g).store ≡ g.store)
        × ((settle side sym qty n fee g).orders ≡ g.orders)
  unfolding settle
  settle_keeps buy sym qty n fee g = (refl, refl)
  settle_keeps sell sym qty n fee g = (refl, refl)

  match_report-IsMatch :
      (w : World) (n : ℕ) (symbol : String) (price p fee : F) (o o' : Order F)
      → SameTerms o o'
      → o'.state ≡ filled
      → o.price ≡ some p
      → meets o.side p price ≡ true
      → IsMatch symbol price (match_report w n symbol price o fee) o'
  unfolding match_report
  match_report-IsMatch w n symbol price p fee o o' same s e m = record {
    id = sym same.cl_ord_id;
    side = sym same.side;
    of_symbol = refl;
    exec_type = refl;
    quantity = sym same.quantity;
    last_price = refl;
    state = s;
    limit = p;
    price = same.price ∙ e;
    no_worse = no_worse o'.side price p (λ b. ground arith) (λ b. ground arith);
  }

  order-Moves :
      (ref q : ℕ) (g g' : Gateway F)
      → is_active (g.store ref) ≡ true
      → IsBooked filled ref g g'
      → Moves (g.store q) (g'.store q)
  order-Moves ref q g g' a h = elim (Bool-cases (q == ref)) [
    | inr n ↦ kept (h.others q n)
    | inl e ↦ let same : q ≡ ref = ground arith in rw same (fills a h.state)
  ]

  -- what an order that is looked at is
  active_of : (symbol : String) (o : Order F) → rests_for symbol o ≡ true → is_active o ≡ true
  unfolding rests_for
  active_of symbol o h = ground arith

  fill_resting-Round :
      (w : World) (symbol : String) (price p : F) (ref : ℕ) (g : Gateway F)
      → rests_for symbol (g.store ref) ≡ true
      → (g.store ref).price ≡ some p
      → meets (g.store ref).side p price ≡ true
      → Yields (Round symbol price ref g) (fill_resting w symbol price ref g)
  unfolding fill_resting count_report match_report
  fill_resting-Round w symbol price p ref g k e m =
      let o = g.store ref in
      let notional = f.mul price o.quantity in
      let fee = fee_of g notional in
      let settled = settle o.side symbol o.quantity notional fee g in
      let (store, orders) = settle_keeps o.side symbol o.quantity notional fee g in
      let n = suc settled.report_counter in
      let report = match_report w n symbol price o fee in
      Yields-map (booked some report ref o.cl_ord_id (record settled { report_counter = n }))
        λ a g' h.
          let same : SameTerms o (g'.store ref) = rw store at (h.1.terms) in
          rw (h.0) (record {
            posted = account_eq _ g' (h.1.account) ∙ settle_account report g refl;
            moves =
                λ q. rw store at (order-Moves ref q _ g' (rw store (active_of symbol o k)) (h.1));
            orders = h.1.orders ∙ orders;
            clear = filled-IsClear symbol price (g'.store ref) (h.1.state);
            reported = λ r q.
                rw (← some-injective report r q) (
                  match_report-IsMatch w n symbol price p fee o (g'.store ref) same (h.1.state) e
                    m);
          })

  unmatched-Round :
      (symbol : String) (price : F) (ref : ℕ) (g : Gateway F)
      → IsClear symbol price (g.store ref)
      → Round symbol price ref g none g
  unmatched-Round symbol price ref g h = record {
    posted = refl;
    moves = λ q. kept refl;
    orders = refl;
    clear = h;
    reported = λ r e. cc;
  }

  pub match_order-Round :
      (w : World) (symbol : String) (price : F) (ref : ℕ) (g : Gateway F)
      → Yields (Round symbol price ref g) (match_order w symbol price ref g)
  unfolding match_order
  match_order-Round w symbol price ref g =
      let o = g.store ref in
      elim (Bool-cases (rests_for symbol o)) [
        | inr k ↦ rw k (returns (unmatched-Round symbol price ref g λ p k' e. cc))
        | inl k ↦ elim (Option-cases o.price) [
          | inl e ↦ rw (k, e) raises
          | inr (p, e) ↦ elim (Bool-cases (meets o.side p price)) [
            | inl m ↦ rw (k, e, m) (fill_resting-Round w symbol price p ref g k e m)
            | inr m ↦
                rw (k, e, m)
                  (returns (
                    unmatched-Round symbol price ref g
                      λ p' k' e'. rw (some-injective p' p (sym e' ∙ e)) m))
          ]
        ]
      ]
