-- ===== src/TaxLots/Oldest.antt =====
-- Which lots `allocate_fill` of src/quant/execution/tax_lot.py closes first: by their times, the oldest with
-- FIFO and the newest with LIFO.
use mathlib.Core.Path.{subst}
use mathlib.Core.Option.{some-injective}
use quant_stuff.Prelude.{
  ℕ, suc, ◌+◌, ◌==◌, ◌≡◌, ◌<◌, ◌⊎◌, refl, sym, ap, ◌∙◌, true, false, some, List, [], ◌∷◌, arith,
  inl, inr, Bool-cases, All, All-map, item, item-unchanged, item-changed, change, false≢true,
  Option-cases,
}
use quant_stuff.Float.{Float, IsOrdered, fmin}
use quant_stuff.TaxLots.{TaxLot, LotSide, TaxLotMethod, fifo, lifo, dust, is_open}
use quant_stuff.TaxLots.Order.{Slot, precedes, sort, active_slots}
use quant_stuff.TaxLots.Sorted.{IsSorted, sort-IsSorted, sort-All, All-sort, active_slots-All}
use quant_stuff.TaxLots.Matching.{Fill, Matching, consume, match_lot, match_at, match_lots}
use quant_stuff.TaxLots.Exhaust.{match_lots_stop}
use quant_stuff.TaxLots.Allocate.{begin_matching}
use quant_stuff.TaxLots.Book.{IsSided}
use quant_stuff.Float.Order.{lt_of_not-le}
use quant_stuff.Float.{IsNonneg}
use quant_stuff.TaxLots.Loop.{
  IsMatching, ClosedAt, match_at-IsMatching, match_at_closes, match_lots_closed, match_at-some,
  match_at-none,
}

-- which of two lots goes first: the one opened before the other with FIFO, after it with LIFO
abbrev pub GoesFirst : TaxLotMethod → ℕ → ℕ → Type 0
GoesFirst fifo a b = a < b
GoesFirst lifo a b = b < a

shifted : (n k : ℕ) → n + suc k ≡ suc n + k
shifted n k = omega arith

zero_plus : (n : ℕ) → n ≡ 0 + n
zero_plus n = omega arith

plus_zero : (n : ℕ) → n ≡ n + 0
plus_zero n = omega arith

same_self : (i : ℕ) → (i == i) ≡ true
same_self i = ground arith

not-precedes :
    (method : TaxLotMethod) (i j a b : ℕ)
    → GoesFirst method a b
    → precedes method (j, b) (i, a) ≡ false
not-precedes fifo i j a b h = ground arith
not-precedes lifo i j a b h = ground arith

-- a place that is among the slots
Among : ℕ → List Slot → Type 1
Among i slots = (P : ℕ → Type 0) → All (λ slot. P slot.0) slots → P i

Among-behind :
    (i n t : ℕ) (slots : List Slot) → Among i ((n, t) ∷ slots) → (n == i) ≡ false → Among i slots
unfolding Among
Among-behind i n t slots a d P h =
    a (λ k. (k == i) ≡ true → P k)
      (
        (λ e. let x : ⊥ = cc in absurd x),
        All-map (λ slot. P slot.0) (λ slot. (slot.0 == i) ≡ true → P slot.0) (λ slot p _. p) slots
            h,
      )
      (same_self i)

Among-nil : (i : ℕ) → Among i [] → ⊥
unfolding Among
Among-nil i a = a (λ _. ⊥) tt

GoesFirst-apart : (method : TaxLotMethod) (a b : ℕ) → GoesFirst method a b → a ≡ b → ⊥
GoesFirst-apart fifo a b h e = omega arith
GoesFirst-apart lifo a b h e = omega arith

module _ {F : Type 0} ⦃f : Float F⦄ where
  -- the time of a slot is that of the lot at its place
  Timed : List (TaxLot F) → Slot → Type 0
  Timed lots slot = (l : TaxLot F) → item slot.0 lots ≡ some l → slot.1 ≡ l.open_timestamp

  active_slots-Timed :
      (n : ℕ) (all lots : List (TaxLot F))
      → ((k : ℕ) (l : TaxLot F) → item k lots ≡ some l → item (n + k) all ≡ some l)
      → All (Timed all) (active_slots n lots)
  unfolding active_slots Timed
  active_slots-Timed n all [] h = tt
  active_slots-Timed n all (l ∷ lots) h =
      let rest =
        active_slots-Timed (suc n) all lots
          λ k x e. subst (λ q. item q all ≡ some x) (shifted n k) (h (suc k) x e) in
      elim (Bool-cases (is_open l)) [
        | inl o ↦ rw o (
          (λ x e.
              ap (λ l. l.open_timestamp)
                (some-injective l x
                  (sym (h 0 l refl) ∙ subst (λ q. item q all ≡ some x) (plus_zero n) e))),
          rest,
        )
        | inr o ↦ rw o rest
      ]

  match_at_there :
      (laws : IsOrdered F) (x : Fill F) (n i : ℕ) (m : Matching F) (a : TaxLot F)
      → item i m.lots ≡ some a
      → (l : TaxLot F) × (item i (match_at x n m).lots ≡ some l)
  unfolding match_lot
  match_at_there laws x n i m a e = elim (Option-cases (item n m.lots)) [
    | inl none_there ↦ rw (match_at-none laws x n m none_there) (a, e)
    | inr (l, e1) ↦ rw (match_at-some laws x n l m e1) (elim (Bool-cases (i == n)) [
      | inl c ↦
          let here : i ≡ n = ground arith in
          let g = consume (fmin l.remaining_quantity m.remaining_fill) in
          subst (λ k. (l' : TaxLot F) × (item k (change n g m.lots) ≡ some l')) (sym here)
            (g l, item-changed n l g m.lots e1)
      | inr c ↦ (a, item-unchanged i n _ m.lots c ∙ e)
    ])
  ]

  -- no lot leaves its place
  match_lots_there :
      (laws : IsOrdered F) (x : Fill F) (slots : List Slot) (i : ℕ) (m : Matching F) (a : TaxLot F)
      → item i m.lots ≡ some a
      → (l : TaxLot F) × (item i (match_lots x slots m).lots ≡ some l)
  unfolding match_lots
  match_lots_there laws x [] i m a e = (a, e)
  match_lots_there laws x ((n, t) ∷ slots) i m a e =
      elim (Bool-cases (f.le m.remaining_fill dust)) [
        | inl stop ↦ rw stop (a, e)
        | inr go ↦
            let (l, e1) = match_at_there laws x n i m a e in
            rw go (match_lots_there laws x slots i (match_at x n m) l e1)
      ]

  match_at_elsewhere :
      (laws : IsOrdered F) (x : Fill F) (n j : ℕ) (m : Matching F)
      → (j == n) ≡ false
      → item j (match_at x n m).lots ≡ item j m.lots
  unfolding match_lot
  match_at_elsewhere laws x n j m d = elim (Option-cases (item n m.lots)) [
    | inl e ↦ rw (match_at-none laws x n m e) refl
    | inr (l, e) ↦ rw (match_at-some laws x n l m e) (item-unchanged j n _ m.lots d)
  ]

  -- a slot that stands before a sorted rest precedes every place of it
  before_rest :
      (method : TaxLotMethod) (lots : List (TaxLot F)) (slot : Slot) (slots : List Slot) (i : ℕ)
      (a : TaxLot F)
      → All (λ c. precedes method slot c ≡ true) slots
      → All (Timed lots) slots
      → Among i slots
      → item i lots ≡ some a
      → precedes method slot (i, a.open_timestamp) ≡ true
  unfolding Timed Among
  before_rest method lots slot slots i a h timed among e =
      among
        (λ k.
          (l : TaxLot F) → item k lots ≡ some l → precedes method slot (k, l.open_timestamp) ≡ true)
        (zip slots h timed) a e
    where
      zip :
          (cs : List Slot)
          → All (λ c. precedes method slot c ≡ true) cs
          → All (Timed lots) cs
          → All
              (λ c.
                (l : TaxLot F)
                → item c.0 lots ≡ some l
                → precedes method slot (c.0, l.open_timestamp) ≡ true)
              cs
      zip [] p q = tt
      zip (c ∷ cs) p q = (λ l g. rw (← (q.0 l g)) (p.0), zip cs (p.1) (q.1))

  module _ (laws : IsOrdered F) (x : Fill F) (s : LotSide) (method : TaxLotMethod)
      (lots : List (TaxLot F)) (i j : ℕ) (a b : TaxLot F) (at_i : item i lots ≡ some a)
      (at_j : item j lots ≡ some b)
      (first : GoesFirst method a.open_timestamp b.open_timestamp) where
    -- what is to be shown of the loop's end
    InTurn : Matching F → Type 0
    InTurn m = (item j m.lots ≡ some b) ⊎ ClosedAt i m

    apart : (i == j) ≡ false
    apart = elim (Bool-cases (i == j)) [
      | inr e ↦ e
      | inl e ↦
          let here : i ≡ j = ground arith in
          let same =
            some-injective a b (sym at_i ∙ subst (λ k. item k lots ≡ some b) (sym here) at_j) in
          absurd (GoesFirst-apart method _ _ first (ap (λ l. l.open_timestamp) same))
    ]

    head_elsewhere :
        (n t : ℕ) (slots : List Slot)
        → IsSorted method ((n, t) ∷ slots)
        → All (Timed lots) ((n, t) ∷ slots)
        → Among i ((n, t) ∷ slots)
        → (n == i) ≡ false
        → (j == n) ≡ false
    unfolding Timed
    head_elsewhere n t slots sorted timed among other = elim (Bool-cases (j == n)) [
      | inr e ↦ e
      | inl e ↦
          let here : j ≡ n = ground arith in
          let time = timed.0 b (subst (λ k. item k lots ≡ some b) here at_j) in
          let front =
            before_rest method lots (n, t) slots i a (sorted.0) (timed.1)
              (Among-behind i n t slots among other) at_i in
          absurd (false≢true (sym (not-precedes method i n _ _ first) ∙ (rw time at front)))
    ]

    match_lots-InTurn :
        (slots : List Slot) (m : Matching F)
        → IsMatching s m
        → IsSorted method slots
        → All (Timed lots) slots
        → Among i slots
        → item j m.lots ≡ some b
        → InTurn (match_lots x slots m)
    unfolding InTurn match_lots
    match_lots-InTurn [] m h sorted timed among e = inl e
    match_lots-InTurn ((n, t) ∷ slots) m h sorted timed among e =
        let m1 = match_at x n m in
        let h1 = (match_at-IsMatching laws x s n m h).0 in
        elim (Bool-cases (f.le m.remaining_fill dust)) [
          | inl stop ↦ rw stop (inl e)
          | inr go ↦ rw go (elim (Bool-cases (n == i)) [
            | inl same ↦
                let here : n ≡ i = ground arith in
                let off : (j == n) ≡ false = ground (arith, apart) in
                elim (Bool-cases (f.le m1.remaining_fill dust)) [
                  | inl small ↦ inl (
                      subst (λ r. item j r.lots ≡ some b)
                        (sym (match_lots_stop laws x slots m1 small))
                        (match_at_elsewhere laws x n j m off ∙ e))
                  | inr big ↦
                      let over = lt_of_not-le laws _ _ (h1.fill.0) (laws.lit_finite 1 8) big in
                      inr (
                        match_lots_closed laws x s i slots m1 h1
                          (subst (λ k. ClosedAt k m1) here (match_at_closes laws x s n m h over)))
                ]
            | inr other ↦
                let off = head_elsewhere n t slots sorted timed among other in
                match_lots-InTurn slots m1 h1 (sorted.1) (timed.1)
                  (Among-behind i n t slots among other) (match_at_elsewhere laws x n j m off ∙ e)
          ])
        ]

    -- the loop over the open lots of a symbol
    pub match_lots_in_turn :
        (q : F)
        → IsSided s lots
        → IsNonneg q
        → is_open a ≡ true
        → let m = match_lots x (sort method (active_slots 0 lots)) (begin_matching lots q) in
          (item j m.lots ≡ some b)
          ⊎ ((l : TaxLot F) × (item i m.lots ≡ some l) × (is_open l ≡ false))
    unfolding InTurn Among
    match_lots_in_turn q h n o =
        let slots = sort method (active_slots 0 lots) in
        let m = match_lots x slots (begin_matching lots q) in
        let (l, there) = match_lots_there laws x slots i (begin_matching lots q) a at_i in
        elim (match_lots-InTurn slots (begin_matching lots q)
          (record { lots = h.valid; sides = h.on_side; fill = n })
          (sort-IsSorted method (active_slots 0 lots))
          (All-sort method (Timed lots) (active_slots 0 lots) (
            active_slots-Timed 0 lots lots
              λ k l e. subst (λ q. item q lots ≡ some l) (zero_plus k) e))
          (λ P k. subst P (sym (zero_plus i)) (
            active_slots-All P 0 i a lots
              (sort-All method (λ slot. P slot.0) (active_slots 0 lots) k) at_i o))
          at_j) [ inl kept ↦ inl kept | inr closed ↦ inr (l, there, closed l there) ]
