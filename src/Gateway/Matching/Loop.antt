-- ===== src/Gateway/Matching/Loop.antt =====
-- The loop in `set_market_price` of src/quant/execution/gateway.py, and what the call promises.
use quant_stuff.Prelude.{
  ℕ, ◌≡◌, refl, true, false, ap, ◌∙◌, Option, none, some, String, List, [], ◌∷◌, All, strip, sym,
}
use quant_stuff.Prelude.Dict.{lookup, insert, values, lookup-All}
use quant_stuff.Float.{Float}
use quant_stuff.Orders.Types.{ExecutionReport, ok}
use quant_stuff.Orders.Validate.{Value, positive_scalar}
use quant_stuff.Idempotency.{text_argument}
use quant_stuff.Action.{Yields, returns, Yields-bind, Yields-map, yielded, checked}
use quant_stuff.Gateway.Types.{Gateway, World}
use quant_stuff.Gateway.Account.{Account, account, post}
use quant_stuff.Gateway.Matching.{meets, rests_for, match_orders, with_report, set_market_price}
use quant_stuff.Gateway.Matching.Rounds.{
  IsClear, IsMatch, Moves, kept, Moves-trans, Moves-filled, Moves-IsClear, Round, match_order-Round,
}

module _ {F : Type 0} ⦃f : Float F⦄ where
  abbrev pub post_all : List (ExecutionReport F) → Account F → Account F
  post_all [] a = a
  post_all (r ∷ rs) a = post_all rs (post r a)

  -- a report of the fill of some order
  abbrev pub Reports : String → F → Gateway F → ExecutionReport F → Type 0
  Reports symbol price g r = (ref : ℕ) × IsMatch symbol price r (g.store ref)

  pub record Rounds (symbol : String) (price : F) (refs : List ℕ) (g : Gateway F)
      (rs : List (ExecutionReport F)) (g' : Gateway F) : Type 0 where
    pub posted : account g' ≡ post_all rs (account g)
    pub moves : (q : ℕ) → Moves (g.store q) (g'.store q)
    pub orders : g'.orders ≡ g.orders
    pub clear : All (λ ref. IsClear symbol price (g'.store ref)) refs
    pub reported : All (Reports symbol price g') rs

  Round-Reports :
      (symbol : String) (price : F) (ref : ℕ) (g g1 g' : Gateway F) (a : Option (ExecutionReport F))
      (rs : List (ExecutionReport F))
      → Round symbol price ref g a g1
      → ((q : ℕ) → Moves (g1.store q) (g'.store q))
      → account g' ≡ post_all rs (account g1)
      → All (Reports symbol price g') rs
      → (account g' ≡ post_all (with_report a rs) (account g))
        × All (Reports symbol price g') (with_report a rs)
  Round-Reports symbol price ref g g1 g' none rs h moves e all =
      (e ∙ ap (post_all rs) h.posted, all)
  Round-Reports symbol price ref g g1 g' (some r) rs h moves e all =
      let matched = h.reported r refl in
      (
        e ∙ ap (post_all rs) h.posted,
        ((ref, rw (Moves-filled _ _ (moves ref) matched.state) matched), all),
      )

  pub match_orders-Rounds :
      (w : World) (symbol : String) (price : F) (refs : List ℕ) (g : Gateway F)
      → Yields (Rounds symbol price refs g) (match_orders w symbol price refs g)
  unfolding match_orders
  match_orders-Rounds w symbol price [] g =
      returns
        (record { posted = refl; moves = λ q. kept refl; orders = refl; clear = tt; reported = tt })
  match_orders-Rounds w symbol price (ref ∷ refs) g =
      Yields-bind (match_order-Round w symbol price ref g) λ a g1 h1.
        Yields-bind (match_orders-Rounds w symbol price refs g1) λ rs g' h.
          let (posted, reported) =
            Round-Reports symbol price ref g g1 g' a rs h1 h.moves h.posted h.reported in
          returns (record {
            posted = posted;
            moves = λ q. Moves-trans _ _ _ (h1.moves q) (h.moves q);
            orders = h.orders ∙ h1.orders;
            clear = (Moves-IsClear symbol price _ _ (h.moves ref) h1.clear, h.clear);
            reported = reported;
          })

  module _ (w : World) (symbol price : Value F) (s : String) (x : F) (g : Gateway F) where
    abbrev pub priced : Gateway F
    priced = record g { market_prices = insert (strip s) x g.market_prices }

    set_market_price-Rounds :
        text_argument symbol ≡ ok s
        → positive_scalar price ≡ ok x
        → Yields (Rounds (strip s) x (values g.orders) priced) (set_market_price w symbol price g)
    unfolding set_market_price
    set_market_price-Rounds a b =
        rw (a, b) (match_orders-Rounds w (strip s) x (values g.orders) priced)

    -- If `set_market_price` is given a text that is not blank and a positive price and returns, each report
    -- that it returns is the report of the whole fill of an order, at the new price, which is no worse
    -- than the limit of that order, and the order is FILLED.
    pub set_market_price-fills :
        text_argument symbol ≡ ok s
        → positive_scalar price ≡ ok x
        → (rs : List (ExecutionReport F)) (g' : Gateway F)
        → set_market_price w symbol price g ≡ (ok rs, g')
        → All (Reports (strip s) x g') rs
    set_market_price-fills a b rs g' e = (yielded rs g' (set_market_price-Rounds a b) e).reported

    -- If `set_market_price` is given a text that is not blank and a positive price and returns, no order of
    -- the registry is left that is active, a limit order for the symbol, and met by the new price.
    pub set_market_price-clear :
        text_argument symbol ≡ ok s
        → positive_scalar price ≡ ok x
        → (rs : List (ExecutionReport F)) (g' : Gateway F)
        → set_market_price w symbol price g ≡ (ok rs, g')
        → (id : String) (ref : ℕ) → lookup id g'.orders ≡ some ref
        → (p : F) → rests_for (strip s) (g'.store ref) ≡ true
        → (g'.store ref).price ≡ some p
        → meets (g'.store ref).side p x ≡ false
    set_market_price-clear a b rs g' e id ref found =
        let h = yielded rs g' (set_market_price-Rounds a b) e in
        lookup-All (λ q. IsClear (strip s) x (g'.store q)) id ref g.orders h.clear
          (ap (lookup id) (sym h.orders) ∙ found)

  pub set_market_price-post :
      (w : World) (symbol price : Value F) (g : Gateway F)
      → Yields (λ rs g'. account g' ≡ post_all rs (account g)) (set_market_price w symbol price g)
  unfolding set_market_price
  set_market_price-post w symbol price g = Yields-bind (checked (text_argument symbol) g) λ s g1 e1.
      Yields-bind (checked (positive_scalar price) g1) λ x g2 e2.
        rw (e2.0, e1.0)
          (Yields-map
            (match_orders-Rounds w (strip s) x (values g.orders) (priced w symbol price s x g))
            λ rs g' h. h.posted)
