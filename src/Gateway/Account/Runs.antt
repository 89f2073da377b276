-- ===== src/Gateway/Account/Runs.antt =====
-- The calls of the gateway in src/quant/execution/gateway.py one after the other, and inside the sleeps
-- of one another.
use quant_stuff.Prelude.{ℕ, ◌≡◌, refl, ap, sym, ◌∙◌, List, [], ◌∷◌, ◌++◌}
use quant_stuff.Float.{Float}
use quant_stuff.Orders.Types.{ExecutionReport, ok}
use quant_stuff.Orders.Validate.{Value}
use quant_stuff.Action.{Yields, Yields-map, yielded}
use quant_stuff.Gateway.Types.{Gateway, World, sleep}
use quant_stuff.Gateway.Connection.{connect, disconnect}
use quant_stuff.Gateway.Submit.{submit_order}
use quant_stuff.Gateway.Submit.Steps.{submit_order_after_sleep}
use quant_stuff.Gateway.Cancel.{cancel_order, cancel_report}
use quant_stuff.Gateway.Cancel.Effects.{cancel_order-Yields}
use quant_stuff.Gateway.Matching.{set_market_price}
use quant_stuff.Gateway.Matching.Loop.{post_all, set_market_price-post}
use quant_stuff.Gateway.Account.{Account, account, account_eq, post}
use quant_stuff.Gateway.Account.Fills.{execute-post}

module _ {F : Type 0} ⦃f : Float F⦄ where
  -- Calls that return, with the reports that they return, in order. A call that sleeps lets other calls
  -- run before it goes on; what it does before it sleeps changes nothing.
  pub data Calls (w : World) : Gateway F → List (ExecutionReport F) → Gateway F → Type 0 where
    done : {g : Gateway F} → Calls w g [] g
    opened :
        {g g1 g' : Gateway F} {rs rs' : List (ExecutionReport F)} (other : Gateway F → Gateway F)
        → Calls w g rs (sleep other g).1
        → connect other g ≡ (ok tt, g1)
        → Calls w g1 rs' g'
        → Calls w g (rs ++ rs') g'
    closed :
        {g g1 g' : Gateway F} {rs rs' : List (ExecutionReport F)} (other : Gateway F → Gateway F)
        → Calls w g rs (sleep other g).1
        → disconnect other g ≡ (ok tt, g1)
        → Calls w g1 rs' g'
        → Calls w g (rs ++ rs') g'
    submitted :
        {g g1 g' : Gateway F} {rs rs' : List (ExecutionReport F)} {r : ExecutionReport F}
        (other : Gateway F → Gateway F) (ref : ℕ)
        → Calls w g rs (sleep other g).1
        → submit_order w other ref g ≡ (ok r, g1)
        → Calls w g1 rs' g'
        → Calls w g (rs ++ (r ∷ rs')) g'
    cancelled :
        {g g1 g' : Gateway F} {rs rs' : List (ExecutionReport F)} {r : ExecutionReport F}
        (other : Gateway F → Gateway F) (id : Value F)
        → Calls w g rs (sleep other g).1
        → cancel_order w other id g ≡ (ok r, g1)
        → Calls w g1 rs' g'
        → Calls w g (rs ++ (r ∷ rs')) g'
    priced :
        {g g1 g' : Gateway F} {rs rs' : List (ExecutionReport F)} (symbol price : Value F)
        → set_market_price w symbol price g ≡ (ok rs, g1)
        → Calls w g1 rs' g'
        → Calls w g (rs ++ rs') g'

  post_all-append :
      (rs rs' : List (ExecutionReport F)) (a : Account F)
      → post_all (rs ++ rs') a ≡ post_all rs' (post_all rs a)
  post_all-append [] rs' a = refl
  post_all-append (r ∷ rs) rs' a = post_all-append rs rs' (post r a)

  connect_account :
      (other : Gateway F → Gateway F) (g : Gateway F)
      → (account (connect other g).1 ≡ account (sleep other g).1)
        × (account (disconnect other g).1 ≡ account (sleep other g).1)
  unfolding connect disconnect sleep
  connect_account other g = (refl, refl)

  submit_order-post :
      (w : World) (other : Gateway F → Gateway F) (ref : ℕ) (g : Gateway F)
      → Yields
          (λ r g'. account g' ≡ post r (account (sleep other g).1))
          (submit_order w other ref g)
  submit_order-post w other ref g =
      submit_order_after_sleep _ w other ref g (execute-post w ref (sleep other g).1)

  cancel_order-post :
      (w : World) (other : Gateway F → Gateway F) (id : Value F) (g : Gateway F)
      → Yields (λ r g'. account g' ≡ post r (account (sleep other g).1)) (cancel_order w other id g)
  unfolding cancel_report
  cancel_order-post w other id g =
      Yields-map (cancel_order-Yields w other id g)
        λ r g' h. let c = h.2 in rw c.report (account_eq _ g' c.booked.account)

  -- the account after calls inside a sleep, the call itself and more calls
  joined :
      (rs mid rs' : List (ExecutionReport F)) (a b c d : Account F)
      → b ≡ post_all rs a
      → c ≡ post_all mid b
      → d ≡ post_all rs' c
      → d ≡ post_all (rs ++ (mid ++ rs')) a
  joined rs mid rs' a b c d e e' e'' =
      rw
        (
          post_all-append rs (mid ++ rs') a,
          post_all-append mid rs' (post_all rs a),
          ← e,
          ← e',
          ← e'',
        )
        refl

  -- INV-GW-003: Whatever calls of connect, disconnect, `submit_order`, `cancel_order` and
  -- `set_market_price` return, also while others sleep, the cash and the positions after them are those
  -- before with the reports posted that were returned, in their order: a fill pays or earns its quote
  -- amount, pays its fee, and moves the position, and no other report moves anything.
  pub Calls-post :
      (w : World) (g g' : Gateway F) (rs : List (ExecutionReport F))
      → Calls w g rs g'
      → account g' ≡ post_all rs (account g)
  Calls-post w g g' [] done = refl
  Calls-post w g g' _ (opened {g1} {rs} {rs'} other before e after) =
      joined rs [] rs' (account g) (account (sleep other g).1) (account g1) (account g')
        (Calls-post w g _ rs before) (ap (λ x. account x.1) (sym e) ∙ (connect_account other g).0)
        (Calls-post w g1 g' rs' after)
  Calls-post w g g' _ (closed {g1} {rs} {rs'} other before e after) =
      joined rs [] rs' (account g) (account (sleep other g).1) (account g1) (account g')
        (Calls-post w g _ rs before) (ap (λ x. account x.1) (sym e) ∙ (connect_account other g).1)
        (Calls-post w g1 g' rs' after)
  Calls-post w g g' _ (submitted {g1} {rs} {rs'} {r} other ref before e after) =
      joined rs (r ∷ []) rs' (account g) _ (account g1) (account g') (Calls-post w g _ rs before)
        (yielded r g1 (submit_order-post w other ref g) e) (Calls-post w g1 g' rs' after)
  Calls-post w g g' _ (cancelled {g1} {rs} {rs'} {r} other id before e after) =
      joined rs (r ∷ []) rs' (account g) _ (account g1) (account g') (Calls-post w g _ rs before)
        (yielded r g1 (cancel_order-post w other id g) e) (Calls-post w g1 g' rs' after)
  Calls-post w g g' _ (priced {g1} {rs} {rs'} symbol price e after) =
      joined rs [] rs' (account g) _ (account g1) (account g')
        (yielded rs g1 (set_market_price-post w symbol price g) e) refl
        (Calls-post w g1 g' rs' after)
