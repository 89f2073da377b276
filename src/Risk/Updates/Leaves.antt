-- ===== src/Risk/Updates/Leaves.antt =====
-- Pending leaves under `update_fill` of src/quant/execution/risk.py.
use mathlib.Core.Path.{subst}
use quant_stuff.Prelude.{
  ◌≡◌, refl, inl, inr, true, some, String, arith, Bool-cases, Option-cases, All, str_eq, str_eq_iff,
  if◌then◌else◌,
}
use quant_stuff.Prelude.Dict.{
  Dict, lookup, insert, erase, values, lookup-insert, lookup-erase, lookup-All,
}
use quant_stuff.Float.{Float, IsOrdered, lt, fmin, fmax, nought, ◌≼◌, IsPositive}
use quant_stuff.Float.Order.{fmin-le_left, fmax-le, le-fmin, le-fmax}
use quant_stuff.Orders.Types.{OrderSide}
use quant_stuff.Risk.State.{amount}
use quant_stuff.Risk.Updates.{remaining, spent, reconcile_leaves}

module _ {F : Type 0} ⦃f : Float F⦄ where
  -- what is left lies between nought and what was there
  pub data Shrinks (old left : F) : Type 0 where
    keeps : left ≡ old → Shrinks old left
    lowers : nought ≼ left → left ≼ old → Shrinks old left
    raises : old ≼ left → left ≼ nought → Shrinks old left

  abbrev pub IsFinite : F → Type 0
  IsFinite x = f.is_finite x ≡ true

  module _ (laws : IsOrdered F) (qty : F) (positive : IsPositive qty) where
    nought-le-qty : nought ≼ qty
    nought-le-qty = ground arith

    lowered : (old : F) → IsFinite old → nought ≼ old → Shrinks old (fmax nought (f.sub old qty))
    lowered old h p =
        lowers (le-fmax laws nought _ (laws.le_finite nought (laws.lit_finite 0 0)))
          (fmax-le laws nought _ old p (laws.sub-le old qty h nought-le-qty))

    raised : (old : F) → IsFinite old → old ≼ nought → Shrinks old (fmin nought (f.add old qty))
    raised old h p =
        raises (le-fmin laws nought _ old p (laws.le-add old qty h nought-le-qty))
          (fmin-le_left laws nought _ (laws.lit_finite 0 0))

    vanishes : (old : F) → IsFinite old → Shrinks old nought
    vanishes old h =
        let number = laws.le_finite nought (laws.lit_finite 0 0) in
        elim (laws.le_total nought old number (laws.le_finite old h)) [
          | inl p ↦ lowers number p
          | inr p ↦ raises p number
        ]

    remaining-Shrinks :
        (side : OrderSide) (old : F) → IsFinite old → Shrinks old (remaining side old qty)
    unfolding remaining
    remaining-Shrinks OrderSide.buy old h = elim (Bool-cases (lt nought old)) [
      | inl e ↦ rw e (lowered old h (ground arith))
      | inr e ↦ rw e (keeps refl)
    ]
    remaining-Shrinks OrderSide.sell old h = elim (Bool-cases (lt old nought)) [
      | inl e ↦ rw e (raised old h (ground arith))
      | inr e ↦ elim (Bool-cases (lt nought old)) [
        | inl g ↦ rw (e, g) (lowered old h (ground arith))
        | inr g ↦ rw (e, g) (keeps refl)
      ]
    ]

  amount-insert :
      (sym k : String) (v : F) (d : Dict F)
      → amount k (insert sym v d) ≡ (if str_eq sym k then v else amount k d)
  unfolding amount
  amount-insert sym k v d = rw (amount, lookup-insert sym k v d) (ground arith)

  amount-erase :
      (sym k : String) (d : Dict F)
      → amount k (erase sym d) ≡ (if str_eq sym k then nought else amount k d)
  unfolding amount
  amount-erase sym k d = rw (amount, lookup-erase sym k d) (ground arith)

  insert-Shrinks :
      (sym k : String) (left : F) (pending : Dict F)
      → Shrinks (amount sym pending) left
      → Shrinks (amount k pending) (amount k (insert sym left pending))
  insert-Shrinks sym k left pending h = elim (Bool-cases (str_eq sym k)) [
    | inl e ↦
        rw (amount-insert sym k left pending, e)
          (subst (λ j. Shrinks (amount j pending) left) ((str_eq_iff sym k).0 e) h)
    | inr e ↦ rw (amount-insert sym k left pending, e) (keeps refl)
  ]

  erase-Shrinks :
      (sym k : String) (pending : Dict F)
      → Shrinks (amount sym pending) nought
      → Shrinks (amount k pending) (amount k (erase sym pending))
  erase-Shrinks sym k pending h = elim (Bool-cases (str_eq sym k)) [
    | inl e ↦
        rw (amount-erase sym k pending, e)
          (subst (λ j. Shrinks (amount j pending) nought) ((str_eq_iff sym k).0 e) h)
    | inr e ↦ rw (amount-erase sym k pending, e) (keeps refl)
  ]

  amount-some : (sym : String) (x : F) (d : Dict F) → lookup sym d ≡ some x → amount sym d ≡ x
  unfolding amount
  amount-some sym x d e = rw (e, amount)

  module _ (laws : IsOrdered F) (qty : F) (positive : IsPositive qty) where
    pub reconcile_leaves-Shrinks :
        (side : OrderSide) (sym k : String) (pending : Dict F)
        → All IsFinite (values pending)
        → Shrinks (amount k pending) (amount k (reconcile_leaves side sym qty pending))
    unfolding reconcile_leaves
    reconcile_leaves-Shrinks side sym k pending h = elim (Option-cases (lookup sym pending)) [
      | inl e ↦ rw (e, reconcile_leaves) (keeps refl)
      | inr (old, e) ↦
          let finite : IsFinite old = lookup-All IsFinite sym old pending h e in
          elim (Bool-cases (spent side old (remaining side old qty))) [
            | inl g ↦
                rw (e, reconcile_leaves, g)
                  (erase-Shrinks sym k pending
                    (rw (amount-some sym old pending e) (vanishes laws qty positive old finite)))
            | inr g ↦
                rw (e, reconcile_leaves, g)
                  (insert-Shrinks sym k _ pending (
                    rw (amount-some sym old pending e)
                      (remaining-Shrinks laws qty positive side old finite)))
          ]
    ]
