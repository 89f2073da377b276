-- ===== src/Audit/Batches.antt =====
-- The writes of `flush` in src/quant/execution/audit.py: the chunks write what one call would.
use quant_stuff.Prelude.{
  ℕ, zero, suc, ◌≤◌, ◌≡◌, refl, ap, sym, ◌∙◌, none, List, [], ◌∷◌, ◌++◌, length, arith,
}
use quant_stuff.Orders.Types.{ExecutionReport, ok}
use quant_stuff.Audit.{Row, to_row}
use quant_stuff.Audit.Operations.{take, drop, upsert, upsert_all, execute_many, insert_batches}

module _ {F : Type 0} where
  pub upsert_all-append :
      (rs qs : List (ExecutionReport F)) (rows : List (Row F))
      → upsert_all (rs ++ qs) rows ≡ upsert_all qs (upsert_all rs rows)
  upsert_all-append [] qs rows = refl
  upsert_all-append (r ∷ rs) qs rows = upsert_all-append rs qs (upsert (to_row r) rows)

  take-drop : (n : ℕ) (rs : List (ExecutionReport F)) → take n rs ++ drop n rs ≡ rs
  take-drop zero rs = refl
  take-drop (suc n) [] = refl
  take-drop (suc n) (r ∷ rs) = ap (r ∷◌) (take-drop n rs)

  length-drop :
      (n : ℕ) (r : ExecutionReport F) (rs : List (ExecutionReport F))
      → length (drop (suc n) (r ∷ rs)) ≤ length rs
  length-drop zero r rs = omega arith
  length-drop (suc n) r [] = omega arith
  length-drop (suc n) r (q ∷ rs) = omega (arith, length-drop n q rs)

  -- the chunks of a batch, with as much fuel as there are reports
  pub insert_batches_lem :
      (fuel n size : ℕ) (rs : List (ExecutionReport F)) (rows : List (Row F))
      → length rs ≤ fuel
      → insert_batches (λ _. none) fuel n (suc size) rs rows ≡ (ok tt, upsert_all rs rows)
  unfolding insert_batches execute_many
  insert_batches_lem zero n size [] rows h = refl
  insert_batches_lem zero n size (r ∷ rs) rows h = absurd (omega arith)
  insert_batches_lem (suc fuel) n size [] rows h = refl
  insert_batches_lem (suc fuel) n size (r ∷ rs) rows h =
      insert_batches_lem fuel (suc n) size (drop (suc size) (r ∷ rs)) _
        (omega (arith, length-drop size r rs, h))
      ∙ ap (λ x. (ok tt, x))
          (sym (upsert_all-append (take (suc size) (r ∷ rs)) (drop (suc size) (r ∷ rs)) rows)
            ∙ ap (λ x. upsert_all x rows) (take-drop (suc size) (r ∷ rs)))
