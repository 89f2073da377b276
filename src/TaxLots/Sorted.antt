-- ===== src/TaxLots/Sorted.antt =====
-- The order of the lots in `allocate_fill` of src/quant/execution/tax_lot.py.
use quant_stuff.Prelude.{
  ℕ, zero, suc, ◌+◌, ◌≡◌, true, false, some, List, [], ◌∷◌, arith, inl, inr, Bool-cases, All,
  All-map, item,
}
use mathlib.Core.Path.{subst}
use mathlib.Core.Option.{some-injective}
use quant_stuff.Float.{Float}
use quant_stuff.TaxLots.{TaxLot, TaxLotMethod, is_open}
use quant_stuff.TaxLots.Order.{Slot, precedes, place, sort, active_slots}

-- each slot precedes those behind it
abbrev pub IsSorted : TaxLotMethod → List Slot → Type 0
IsSorted m [] = Unit
IsSorted m (a ∷ rest) = All (λ b. precedes m a b ≡ true) rest × IsSorted m rest

module _ (m : TaxLotMethod) where
  precedes_trans :
      (a b c : Slot) → precedes m a b ≡ true → precedes m b c ≡ true → precedes m a c ≡ true
  precedes_trans a b c h k = ground arith

  precedes_total : (a b : Slot) → precedes m a b ≡ false → precedes m b a ≡ true
  precedes_total a b h = ground arith

  All-place :
      (P : Slot → Type 0) (a : Slot) (bs : List Slot) → P a → All P bs → All P (place m a bs)
  All-place P a [] p h = (p, tt)
  All-place P a (b ∷ bs) p h = elim (Bool-cases (precedes m a b)) [
    | inl e ↦ rw e (p, h)
    | inr e ↦ rw e (h.0, All-place P a bs p (h.1))
  ]

  place-All :
      (P : Slot → Type 0) (a : Slot) (bs : List Slot) → All P (place m a bs) → P a × All P bs
  place-All P a [] h = h
  place-All P a (b ∷ bs) h = elim (Bool-cases (precedes m a b)) [
    | inl e ↦ rw e at h
    | inr e ↦
        let moved : P b × All P (place m a bs) = rw e at h in
        let (p, rest) = place-All P a bs (moved.1) in (p, (moved.0, rest))
  ]

  pub sort-All : (P : Slot → Type 0) (slots : List Slot) → All P (sort m slots) → All P slots
  unfolding sort
  sort-All P [] h = tt
  sort-All P (a ∷ rest) h =
      let (p, more) = place-All P a (sort m rest) h in (p, sort-All P rest more)

  pub All-sort : (P : Slot → Type 0) (slots : List Slot) → All P slots → All P (sort m slots)
  unfolding sort
  All-sort P [] h = tt
  All-sort P (a ∷ rest) h = All-place P a (sort m rest) (h.0) (All-sort P rest (h.1))

  place-IsSorted : (a : Slot) (bs : List Slot) → IsSorted m bs → IsSorted m (place m a bs)
  place-IsSorted a [] h = (tt, tt)
  place-IsSorted a (b ∷ bs) h = elim (Bool-cases (precedes m a b)) [
    | inl e ↦ rw e ((e, All-map _ _ (λ c k. precedes_trans a b c e k) bs (h.0)), h)
    | inr e ↦ rw e (All-place _ a bs (precedes_total a b e) (h.0), place-IsSorted a bs (h.1))
  ]

  pub sort-IsSorted : (slots : List Slot) → IsSorted m (sort m slots)
  unfolding sort
  sort-IsSorted [] = tt
  sort-IsSorted (a ∷ rest) = place-IsSorted a (sort m rest) (sort-IsSorted rest)

module _ {F : Type 0} ⦃f : Float F⦄ where
  open_behind :
      (P : ℕ → Type 0) (n : ℕ) (l : TaxLot F) (lots : List (TaxLot F))
      → All (λ slot. P slot.0) (active_slots n (l ∷ lots))
      → All (λ slot. P slot.0) (active_slots (suc n) lots)
  unfolding active_slots
  open_behind P n l lots h = elim (Bool-cases (is_open l)) [
    | inl o ↦
        let both : P n × All (λ slot. P slot.0) (active_slots (suc n) lots) = rw o at h in both.1
    | inr o ↦ rw o at h
  ]

  -- the open lots are among the slots, by their places
  pub active_slots-All :
      (P : ℕ → Type 0) (n k : ℕ) (l : TaxLot F) (lots : List (TaxLot F))
      → All (λ slot. P slot.0) (active_slots n lots)
      → item k lots ≡ some l
      → is_open l ≡ true
      → P (n + k)
  unfolding active_slots
  active_slots-All P n k l [] h e o = cc
  active_slots-All P n zero l (x ∷ lots) h e o =
      let same = some-injective x l e in
      let here : P n × All (λ slot. P slot.0) (active_slots (suc n) lots) = rw (same, o) at h in
      subst P n_plus_zero (here.0)
    where
      n_plus_zero : n ≡ n + 0
      n_plus_zero = omega arith
  active_slots-All P n (suc k) l (x ∷ lots) h e o =
      let below = active_slots-All P (suc n) k l lots (open_behind P n x lots h) e o in
      subst P shifted below
    where
      shifted : suc n + k ≡ n + suc k
      shifted = omega arith
