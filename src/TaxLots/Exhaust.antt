-- ===== src/TaxLots/Exhaust.antt =====
-- The loop of `allocate_fill` in src/quant/execution/tax_lot.py: the first lots in the order are closed
-- before the next one is touched.
use quant_stuff.Prelude.{
  ℕ, ◌≡◌, refl, sym, ◌∙◌, true, false, List, [], ◌∷◌, ◌++◌, arith, inl, inr, ◌≢◌, ◌⊎◌, Bool-cases,
  All,
}
use mathlib.Core.Path.{subst}
use quant_stuff.Float.{Float, IsOrdered, lt, ◌≼◌}
use quant_stuff.Float.Order.{le_of_not-lt}
use quant_stuff.TaxLots.{LotSide, dust}
use quant_stuff.TaxLots.Order.{Slot}
use quant_stuff.TaxLots.Matching.{Fill, Matching, match_at, match_lots}
use quant_stuff.TaxLots.Loop.{
  IsMatching, ClosedAt, match_at-IsMatching, match_lots-IsMatching, match_at_closes,
  match_lots_closed,
}

module _ {F : Type 0} ⦃f : Float F⦄ where
  module _ (laws : IsOrdered F) (x : Fill F) where
    open laws use {le_finite, le_trans, lit_finite}

    lt-trans_le : (a b c : F) → lt a b ≡ true → b ≼ c → lt a c ≡ true
    lt-trans_le a b c h k = ground (arith, le_trans a b c, le_trans b c a)

    not-lt_of_le : (a b : F) → b ≼ a → lt a b ≢ true
    not-lt_of_le a b h = λ k. ground arith

    pub match_lots_stop :
        (slots : List Slot) (m : Matching F) → m.remaining_fill ≼ dust → match_lots x slots m ≡ m
    unfolding match_lots
    match_lots_stop [] m e = refl
    match_lots_stop ((n, t) ∷ slots) m e = rw e refl

    match_lots_go :
        (n t : ℕ) (slots : List Slot) (m : Matching F)
        → f.le m.remaining_fill dust ≡ false
        → match_lots x ((n, t) ∷ slots) m ≡ match_lots x slots (match_at x n m)
    unfolding match_lots
    match_lots_go n t slots m e = rw e refl

    -- a fill that is left over has closed every lot that was looked at
    pub match_lots_closes :
        (s : LotSide) (slots : List Slot) (m : Matching F)
        → IsMatching s m
        → lt dust (match_lots x slots m).remaining_fill ≡ true
        → All (λ slot. ClosedAt slot.0 (match_lots x slots m)) slots
    match_lots_closes s [] m h left = tt
    match_lots_closes s ((n, t) ∷ slots) m h left =
        let h1 = (match_at-IsMatching laws x s n m h).0 in
        elim (Bool-cases (f.le m.remaining_fill dust)) [
          | inl e ↦
              let over : lt dust m.remaining_fill ≡ true =
                rw (match_lots_stop ((n, t) ∷ slots) m e) at left in
              absurd (not-lt_of_le dust m.remaining_fill e over)
          | inr e ↦
              let go = match_lots_go n t slots m e in
              let over : lt dust (match_lots x slots (match_at x n m)).remaining_fill ≡ true =
                rw go at left in
              let less = (match_lots-IsMatching laws x s slots (match_at x n m) h1).1 in
              let mid = lt-trans_le dust _ _ over less in
              subst (λ r. All (λ slot. ClosedAt slot.0 r) ((n, t) ∷ slots)) (sym go)
                (
                  match_lots_closed laws x s n slots (match_at x n m) h1
                      (match_at_closes laws x s n m h mid),
                  match_lots_closes s slots (match_at x n m) h1 over,
                )
        ]

    match_lots-append :
        (ps qs : List Slot) (m : Matching F)
        → match_lots x (ps ++ qs) m ≡ match_lots x qs (match_lots x ps m)
    unfolding match_lots
    match_lots-append [] qs m = refl
    match_lots-append ((n, t) ∷ ps) qs m = elim (Bool-cases (f.le m.remaining_fill dust)) [
      | inl e ↦ rw e (sym (match_lots_stop qs m e))
      | inr e ↦ rw e (match_lots-append ps qs (match_at x n m))
    ]

    -- If the rules of IEEE 754 hold and quantities are finite and not negative, a fill that is matched with
    -- lots in an order is matched with a first part of them alone, unless it leaves no lot of that part
    -- open: no lot is touched before those in front of it are closed.
    pub match_lots_in_order :
        (s : LotSide) (ps qs : List Slot) (m : Matching F)
        → IsMatching s m
        → (match_lots x (ps ++ qs) m ≡ match_lots x ps m)
          ⊎ All (λ slot. ClosedAt slot.0 (match_lots x ps m)) ps
    match_lots_in_order s ps qs m h =
        elim (Bool-cases (lt dust (match_lots x ps m).remaining_fill)) [
          | inl e ↦ inr (match_lots_closes s ps m h e)
          | inr e ↦
              let after = (match_lots-IsMatching laws x s ps m h).0 in
              let small = le_of_not-lt laws dust _ (lit_finite 1 8) (after.fill.0) e in
              inl (match_lots-append ps qs m ∙ match_lots_stop qs (match_lots x ps m) small)
        ]
