-- ===== src/KillSwitch/Cancelled.antt =====
-- What a panic of src/quant/execution/kill_switch.py does to the open orders.
use quant_stuff.Prelude.{
  suc, ◌≤◌, ◌≡◌, refl, ◌⊎◌, inl, inr, none, some, String, List, [], ◌∷◌, All, arith, length,
}
use quant_stuff.Orders.Types.{Order, Result, ok, err}
use quant_stuff.Action.{Action}
use quant_stuff.KillSwitch.Types.{Venue}
use quant_stuff.KillSwitch.Sweep.{attempt, attempt_all, caught, cancel_all}

caught_cases :
    {W A : Type 0} (r : Result A × W)
    → ((caught r).0 ≡ none) ⊎ ((a : A) × (r ≡ (ok a, (caught r).1)) × ((caught r).0 ≡ some a))
caught_cases (ok a, w) = inr (a, refl, refl)
caught_cases (err e, w) = inl refl

attempt_cases :
    {W A : Type 0} (m : Action W A) (w : W)
    → ((attempt m w).0 ≡ none)
      ⊎ ((a : A) × (m w ≡ (ok a, (attempt m w).1)) × ((attempt m w).0 ≡ some a))
unfolding attempt
attempt_cases m w = caught_cases (m w)

caught_world : {W A : Type 0} (r : Result A × W) → (caught r).1 ≡ r.1
caught_world (ok a, w) = refl
caught_world (err e, w) = refl

-- A call opens no order that is closed.
abbrev pub Keeps : {W A : Type 0} → (String → W → Type 0) → Action W A → Type 0
Keeps {W} Closed m = (j : String) (w : W) → Closed j w → Closed j (m w).1

pub attempt-Keeps :
    {W A : Type 0} (Closed : String → W → Type 0) (m : Action W A)
    → Keeps Closed m
    → (j : String) (w : W) → Closed j w
    → Closed j (attempt m w).1
unfolding attempt
attempt-Keeps Closed m h j w c = rw (caught_world (m w)) (h j w c)

pub attempt_all-Keeps :
    {W : Type 0} (Closed : String → W → Type 0) (ms : List (Action W (Unit {0})))
    → All (Keeps Closed) ms
    → (j : String) (w : W) → Closed j w
    → Closed j (attempt_all ms w)
unfolding attempt_all
attempt_all-Keeps Closed [] h j w c = c
attempt_all-Keeps Closed (m ∷ ms) h j w c =
    attempt_all-Keeps Closed ms (h.1) j (attempt m w).1 (attempt-Keeps Closed m (h.0) j w c)

-- What a gateway promises: an order is closed once its cancellation returns, and no call opens an
-- order that is closed.
pub record Closes {F W : Type 0} (Closed : String → W → Type 0) (v : Venue F W) : Type 0 where
  pub cancel_closes : (id : String) (w w' : W) → v.cancel_order id w ≡ (ok tt, w') → Closed id w'
  pub cancel_keeps : (id : String) → Keeps Closed (v.cancel_order id)
  pub positions_keep : Keeps Closed v.get_positions

-- A submission opens no order that is closed.
abbrev pub SubmitKeeps : {F W : Type 0} → (String → W → Type 0) → Venue F W → Type 0
SubmitKeeps {F} Closed v = (o : Order F) → Keeps Closed (v.submit_order o)

module _ {F W : Type 0} (Closed : String → W → Type 0) where
  abbrev pub Promised : List (Venue F W × String) → Type 0
  Promised rs = All (λ (r : Venue F W × String). Closes Closed r.0) rs

  abbrev pub ClosedAll : List (Venue F W × String) → W → Type 0
  ClosedAll rs w = All (λ (r : Venue F W × String). Closed r.1 w) rs

  pub cancel_all-Keeps :
      (rs : List (Venue F W × String))
      → Promised rs
      → (j : String) (w : W) → Closed j w
      → Closed j (cancel_all rs w).1
  unfolding cancel_all
  cancel_all-Keeps [] h j w c = c
  cancel_all-Keeps ((v, id) ∷ rs) h j w c =
      cancel_all-Keeps rs (h.1) j (attempt (v.cancel_order id) w).1
        (attempt-Keeps Closed (v.cancel_order id) ((h.0).cancel_keeps id) j w c)

  cancel_all-le : (rs : List (Venue F W × String)) (w : W) → (cancel_all rs w).0 ≤ length rs
  unfolding cancel_all
  cancel_all-le [] w = omega arith
  cancel_all-le ((v, id) ∷ rs) w = elim (attempt_cases (v.cancel_order id) w) [
    | inl e ↦ rw (e, cancel_all) (omega (arith, cancel_all-le rs (attempt (v.cancel_order id) w).1))
    | inr (a, _, e) ↦
        rw (e, cancel_all) (omega (arith, cancel_all-le rs (attempt (v.cancel_order id) w).1))
  ]

  -- If as many cancellations return as were asked for, all these orders are closed.
  pub cancel_all-ClosedAll :
      (rs : List (Venue F W × String)) (w : W)
      → Promised rs
      → (cancel_all rs w).0 ≡ length rs
      → ClosedAll rs (cancel_all rs w).1
  unfolding cancel_all
  cancel_all-ClosedAll [] w h e = tt
  cancel_all-ClosedAll ((v, id) ∷ rs) w h e = elim (attempt_cases (v.cancel_order id) w) [
    | inl p ↦
        let short : (cancel_all rs (attempt (v.cancel_order id) w).1).0 ≡ suc (length rs) =
          rw (p, cancel_all) at e in
        absurd (omega (arith, cancel_all-le rs (attempt (v.cancel_order id) w).1))
    | inr (a, q, p) ↦
        let rest : suc (cancel_all rs (attempt (v.cancel_order id) w).1).0 ≡ suc (length rs) =
          rw (p, cancel_all) at e in
        (
          cancel_all-Keeps rs (h.1) id _ ((h.0).cancel_closes id w _ q),
          cancel_all-ClosedAll rs (attempt (v.cancel_order id) w).1 (h.1) (omega arith),
        )
  ]
