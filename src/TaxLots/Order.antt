-- ===== src/TaxLots/Order.antt =====
-- The order in which `allocate_fill` of src/quant/execution/tax_lot.py takes the lots: `sorted`, which is
-- stable, also when it is reversed. A lot is named by its place in the list of its symbol.
use quant_stuff.Prelude.{ℕ, suc, leb, Bool, List, [], ◌∷◌, if◌then◌else◌}
use quant_stuff.Float.{Float}
use quant_stuff.TaxLots.{TaxLot, TaxLotMethod, fifo, lifo, is_open}

-- a place and its `open_timestamp`
abbrev pub Slot : Type 0
Slot = ℕ × ℕ

-- whether a slot that stands before another in the list stays before it
abbrev pub precedes : TaxLotMethod → Slot → Slot → Bool
precedes fifo a b = leb a.1 b.1
precedes lifo a b = leb b.1 a.1

abbrev pub place : TaxLotMethod → Slot → List Slot → List Slot
place m a [] = a ∷ []
place m a (b ∷ bs) = let rest = place m a bs in if precedes m a b then a ∷ b ∷ bs else b ∷ rest

-- `sorted(..., key=open_timestamp, reverse=method == LIFO)`
unfoldable pub sort : TaxLotMethod → List Slot → List Slot
sort m [] = []
sort m (a ∷ rest) = place m a (sort m rest)

-- the lots of `active_lots`, from a place on
unfoldable pub active_slots : {F : Type 0} ⦃f : Float F⦄ → ℕ → List (TaxLot F) → List Slot
active_slots n [] = []
active_slots n (l ∷ lots) =
    let rest = active_slots (suc n) lots in if is_open l then (n, l.open_timestamp) ∷ rest else rest
