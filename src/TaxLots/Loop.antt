-- ===== src/TaxLots/Loop.antt =====
-- The rounds of the loop of `allocate_fill` in src/quant/execution/tax_lot.py.
use quant_stuff.Prelude.{
  ℕ, ◌==◌, ◌≡◌, sym, ◌∙◌, true, false, false≢true, none, some, List, [], ◌∷◌, arith, inl, inr,
  Bool-cases, Option-cases, All, All-change, All-item, item, item-changed, item-unchanged,
}
use mathlib.Core.Option.{some-injective}
use quant_stuff.Float.{Float, IsOrdered, lt, fmin, ◌≼◌, IsNonneg}
use quant_stuff.Float.Order.{fmin-le_left, fmin-le_right}
use quant_stuff.TaxLots.{TaxLot, LotSide, dust, is_open}
use quant_stuff.TaxLots.Order.{Slot}
use quant_stuff.TaxLots.Matching.{Fill, Matching, consume, match_lot, match_at, match_lots}
use quant_stuff.TaxLots.Consume.{
  IsLot, OnSide, part-IsNonneg, fmin-IsNonneg, consume-IsLot, consume_side, consume_closed,
  consume_whole,
}

module _ {F : Type 0} ⦃f : Float F⦄ where
  -- what holds of the local variables of the loop
  pub record IsMatching (s : LotSide) (m : Matching F) : Type 0 where
    pub lots : All IsLot m.lots
    pub sides : All (OnSide s) m.lots
    pub fill : IsNonneg m.remaining_fill

  -- no open lot at a place
  abbrev pub ClosedAt : ℕ → Matching F → Type 0
  ClosedAt n m = (l : TaxLot F) → item n m.lots ≡ some l → is_open l ≡ false

  module _ (laws : IsOrdered F) (x : Fill F) where
    open laws use {le_finite, le_trans, lit_finite}

    consume-OnSide :
        (s : LotSide) (q : F) (l : TaxLot F)
        → IsLot l
        → IsNonneg q
        → q ≼ l.remaining_quantity
        → OnSide s l
        → OnSide s (consume q l)
    consume-OnSide s q l h hq le p = λ o. elim (Bool-cases (is_open l)) [
      | inl e ↦ consume_side laws q l ∙ p e
      | inr e ↦ absurd (false≢true (sym (consume_closed laws q l h hq le e) ∙ o))
    ]

    match_lot-IsMatching :
        (s : LotSide) (n : ℕ) (l : TaxLot F) (m : Matching F)
        → IsMatching s m
        → item n m.lots ≡ some l
        → IsMatching s (match_lot x n l m) × ((match_lot x n l m).remaining_fill ≼ m.remaining_fill)
    unfolding match_lot
    match_lot-IsMatching s n l m h e =
        let q = fmin l.remaining_quantity m.remaining_fill in
        let lot : IsLot l = All-item IsLot n l m.lots h.lots e in
        let taken : IsNonneg q =
          fmin-IsNonneg laws l.remaining_quantity m.remaining_fill lot.quantity h.fill in
        let whole : q ≼ l.remaining_quantity =
          fmin-le_left laws l.remaining_quantity m.remaining_fill (lot.quantity.0) in
        let left : q ≼ m.remaining_fill =
          fmin-le_right laws l.remaining_quantity m.remaining_fill (lot.quantity.0) (h.fill.0) in
        let (rest, less) = part-IsNonneg laws m.remaining_fill q h.fill taken left in
        (
          record {
            lots = All-change IsLot n (consume q) m.lots h.lots λ k e' p.
                rw (some-injective k l (sym e' ∙ e)) (consume-IsLot laws q l lot taken whole);
            sides = All-change (OnSide s) n (consume q) m.lots h.sides λ k e' p.
                rw (some-injective k l (sym e' ∙ e)) (
                  consume-OnSide s q l lot taken whole (rw (some-injective k l (sym e' ∙ e)) at p));
            fill = rest;
          },
          less,
        )

    pub match_at-none : (n : ℕ) (m : Matching F) → item n m.lots ≡ none → match_at x n m ≡ m
    match_at-none n m e = ground arith

    pub match_at-some :
        (n : ℕ) (l : TaxLot F) (m : Matching F)
        → item n m.lots ≡ some l
        → match_at x n m ≡ match_lot x n l m
    match_at-some n l m e = ground arith

    -- a round at any place
    pub match_at-IsMatching :
        (s : LotSide) (n : ℕ) (m : Matching F)
        → IsMatching s m
        → IsMatching s (match_at x n m) × ((match_at x n m).remaining_fill ≼ m.remaining_fill)
    match_at-IsMatching s n m h = elim (Option-cases (item n m.lots)) [
      | inl e ↦ rw (match_at-none n m e) (h, le_finite m.remaining_fill (h.fill.0))
      | inr (l, e) ↦ rw (match_at-some n l m e) (match_lot-IsMatching s n l m h e)
    ]

    pub match_lots-IsMatching :
        (s : LotSide) (slots : List Slot) (m : Matching F)
        → IsMatching s m
        → IsMatching s (match_lots x slots m)
          × ((match_lots x slots m).remaining_fill ≼ m.remaining_fill)
    unfolding match_lots
    match_lots-IsMatching s [] m h = (h, le_finite m.remaining_fill (h.fill.0))
    match_lots-IsMatching s ((n, t) ∷ slots) m h =
        let (h1, le1) = match_at-IsMatching s n m h in
        let (h2, le2) = match_lots-IsMatching s slots (match_at x n m) h1 in
        elim (Bool-cases (f.le m.remaining_fill dust)) [
          | inl e ↦ rw e (h, le_finite m.remaining_fill (h.fill.0))
          | inr e ↦ rw e (h2, le_trans _ _ _ le2 le1)
        ]

    match_lot_closes :
        (s : LotSide) (n k : ℕ) (l : TaxLot F) (m : Matching F)
        → IsMatching s m
        → item n m.lots ≡ some l
        → (lt dust (match_lot x n l m).remaining_fill ≡ true → ClosedAt n (match_lot x n l m))
          × (ClosedAt k m → ClosedAt k (match_lot x n l m))
    unfolding match_lot
    match_lot_closes s n k l m h e =
        let q = fmin l.remaining_quantity m.remaining_fill in
        let lot : IsLot l = All-item IsLot n l m.lots h.lots e in
        let taken : IsNonneg q =
          fmin-IsNonneg laws l.remaining_quantity m.remaining_fill lot.quantity h.fill in
        let whole : q ≼ l.remaining_quantity =
          fmin-le_left laws l.remaining_quantity m.remaining_fill (lot.quantity.0) in
        let after = item-changed n l (consume q) m.lots e in
        (
          λ left. λ l' e'.
              rw (some-injective l' (consume q l) (sym e' ∙ after))
                (consume_whole laws m.remaining_fill l lot h.fill left),
          λ c. λ l' e'. elim (Bool-cases (k == n)) [
            | inl same ↦
                let here : k ≡ n = ground arith in
                let found : item n (match_lot x n l m).lots ≡ some l' = rw here at e' in
                rw (some-injective l' (consume q l) (sym found ∙ after))
                  (consume_closed laws q l lot taken whole (c l (rw here e)))
            | inr other ↦ c l' (sym (item-unchanged k n (consume q) m.lots other) ∙ e')
          ],
        )

    -- what is closed stays closed
    match_at_closed :
        (s : LotSide) (n k : ℕ) (m : Matching F)
        → IsMatching s m
        → ClosedAt k m
        → ClosedAt k (match_at x n m)
    match_at_closed s n k m h c = elim (Option-cases (item n m.lots)) [
      | inl e ↦ rw (match_at-none n m e) c
      | inr (l, e) ↦ rw (match_at-some n l m e) ((match_lot_closes s n k l m h e).1 c)
    ]

    pub match_at_closes :
        (s : LotSide) (n : ℕ) (m : Matching F)
        → IsMatching s m
        → lt dust (match_at x n m).remaining_fill ≡ true
        → ClosedAt n (match_at x n m)
    match_at_closes s n m h left = elim (Option-cases (item n m.lots)) [
      | inl e ↦ rw (match_at-none n m e) (λ l e'. cc)
      | inr (l, e) ↦
          rw (match_at-some n l m e)
            ((match_lot_closes s n n l m h e).0 (rw (match_at-some n l m e) at left))
    ]

    pub match_lots_closed :
        (s : LotSide) (k : ℕ) (slots : List Slot) (m : Matching F)
        → IsMatching s m
        → ClosedAt k m
        → ClosedAt k (match_lots x slots m)
    unfolding match_lots
    match_lots_closed s k [] m h c = c
    match_lots_closed s k ((n, t) ∷ slots) m h c =
        let h1 = (match_at-IsMatching s n m h).0 in
        let further =
          match_lots_closed s k slots (match_at x n m) h1 (match_at_closed s n k m h c) in
        elim (Bool-cases (f.le m.remaining_fill dust)) [ inl e ↦ rw e c | inr e ↦ rw e further ]
