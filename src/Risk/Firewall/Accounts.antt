-- ===== src/Risk/Firewall/Accounts.antt =====
-- The equity and the free margin of src/quant/execution/risk.py are those of the description.
use quant_stuff.Prelude.{◌≡◌, refl, ap, inl, inr, ◌↔◌, true, false, [], ◌∷◌, arith, Bool-cases}
use quant_stuff.Prelude.Dict.{Dict}
use quant_stuff.Float.{Float, IsOrdered, lt, nought, absolute}
use quant_stuff.Orders.Types.{ok, bind_ok, ok_injective}
use quant_stuff.Risk.State.{
  PortfolioRiskState, amount, price_of, is_held, add_holding, equity_from, current_equity, lock,
  lock_at, short_leaves, locked_from, free_margin,
}
use quant_stuff.Risk.Firewall.Projection.{
  Marked, all_marked, light, heavy, Locked, all_locked, slight, buying, short_selling, undirected,
  short_part,
}
use quant_stuff.Risk.Firewall.Projects.{price_of_iff}

module _ {F : Type 0} ⦃f : Float F⦄ (laws : IsOrdered F) (s : PortfolioRiskState F) where
  equity_from-Marked :
      (d : Dict F) (cash total : F)
      → equity_from s.current_prices d cash ≡ ok total
      → Marked s d cash total
  unfolding equity_from add_holding is_held
  equity_from-Marked [] cash total h = rw (ok_injective h) all_marked
  equity_from-Marked ((sym, x) ∷ d) cash total h =
      let (sum, h0, h1) =
        bind_ok (add_holding (price_of sym s.current_prices) x cash)
          (λ c. equity_from s.current_prices d c) h in
      elim (Bool-cases (lt (f.lit 1 12) (absolute x))) [
        | inr e ↦ light e (
            equity_from-Marked d cash total
              (rw (ok_injective (rw (add_holding, is_held, e) at h0)) h1))
        | inl e ↦
            let (p, found, h2) = bind_ok _ _ (rw (add_holding, is_held, e) at h0) in
            heavy e ((price_of_iff laws sym s.current_prices p).0 found)
              (equity_from-Marked d (f.add cash (f.mul x p)) total (rw (ok_injective h2) h1))
      ]

  Marked-equity_from :
      (d : Dict F) (cash total : F)
      → Marked s d cash total
      → equity_from s.current_prices d cash ≡ ok total
  unfolding equity_from add_holding is_held
  Marked-equity_from [] cash total all_marked = refl
  Marked-equity_from ((sym, x) ∷ d) cash total (light e w) =
      rw (add_holding, is_held, e) (Marked-equity_from d cash total w)
  Marked-equity_from ((sym, x) ∷ d) cash total (heavy {p = p} e noted w) =
      rw (add_holding, is_held, e, (price_of_iff laws sym s.current_prices p).1 noted)
        (Marked-equity_from d _ total w)

  pub current_equity_iff :
      (total : F) → (current_equity s ≡ ok total) ↔ Marked s s.positions s.cash total
  unfolding current_equity
  current_equity_iff total =
      (equity_from-Marked s.positions s.cash total, Marked-equity_from s.positions s.cash total)

  not_above : (x : F) → lt x nought ≡ true → lt nought x ≡ false
  not_above x h = ground arith

  lock_at-short_part :
      (position x p sum : F)
      → lt nought x ≡ false
      → lt x nought ≡ true
      → lock_at position x p sum ≡ f.add sum (f.mul (short_part position x) p)
  unfolding lock_at short_leaves
  lock_at-short_part position x p sum e g = rw (lock_at, e, short_leaves, g) refl

  locked_from-Locked :
      (d : Dict F) (sum total : F) → locked_from s d sum ≡ ok total → Locked s d sum total
  unfolding locked_from lock lock_at
  locked_from-Locked [] sum total h = rw (ok_injective h) all_locked
  locked_from-Locked ((sym, x) ∷ d) sum total h =
      let (next, h0, h1) = bind_ok (lock s sym x sum) (λ c. locked_from s d c) h in
      elim (Bool-cases (f.le (absolute x) (f.lit 1 12))) [
        | inl e ↦
            slight e (locked_from-Locked d sum total (rw (ok_injective (rw (lock, e) at h0)) h1))
        | inr e ↦
            let (p, found, h2) = bind_ok _ _ (rw (lock, e) at h0) in
            let noted = (price_of_iff laws sym s.current_prices p).0 found in
            elim (Bool-cases (lt nought x)) [
              | inl up ↦ buying e up noted (
                  locked_from-Locked d (f.add sum (f.mul x p)) total
                    (rw (ok_injective (rw (lock_at, up) at h2)) h1))
              | inr flat ↦ elim (Bool-cases (lt x nought)) [
                | inl down ↦
                    let at_short = lock_at-short_part (amount sym s.positions) x p sum flat down in
                    short_selling e down noted (
                      locked_from-Locked d
                        (f.add sum (f.mul (short_part (amount sym s.positions) x) p)) total
                        (rw (ok_injective (rw at_short at h2)) h1))
                | inr level ↦ undirected e flat level noted (
                    locked_from-Locked d sum total
                      (rw (ok_injective (rw (lock_at, flat, level) at h2)) h1))
              ]
            ]
      ]

  Locked-locked_from :
      (d : Dict F) (sum total : F) → Locked s d sum total → locked_from s d sum ≡ ok total
  unfolding locked_from lock lock_at
  Locked-locked_from [] sum total all_locked = refl
  Locked-locked_from ((sym, x) ∷ d) sum total (slight e w) =
      rw (lock, e) (Locked-locked_from d sum total w)
  Locked-locked_from ((sym, x) ∷ d) sum total (buying {p = p} e up noted w) =
      rw (lock, e, (price_of_iff laws sym s.current_prices p).1 noted, lock_at, up)
        (Locked-locked_from d _ total w)
  Locked-locked_from ((sym, x) ∷ d) sum total (short_selling {p = p} e down noted w) =
      rw
        (
          lock,
          e,
          (price_of_iff laws sym s.current_prices p).1 noted,
          lock_at-short_part (amount sym s.positions) x p sum (not_above x down) down,
        )
        (Locked-locked_from d _ total w)
  Locked-locked_from ((sym, x) ∷ d) sum total (undirected {p = p} e flat level noted w) =
      rw (lock, e, (price_of_iff laws sym s.current_prices p).1 noted, lock_at, flat, level)
        (Locked-locked_from d sum total w)

  -- The free margin is the cash less what the pending leaves lock.
  pub free_margin_iff :
      (free : F)
      → (free_margin s ≡ ok free)
        ↔ ((locked : F) × Locked s s.pending_leaves nought locked × (f.sub s.cash locked ≡ free))
  unfolding free_margin
  free_margin_iff free = (into, back)
    where
      into :
          free_margin s ≡ ok free
          → (locked : F) × Locked s s.pending_leaves nought locked × (f.sub s.cash locked ≡ free)
      into h =
          let (locked, h0, h1) = bind_ok (locked_from s s.pending_leaves nought) _ h in
          (locked, locked_from-Locked s.pending_leaves nought locked h0, ok_injective h1)

      back :
          (locked : F) × Locked s s.pending_leaves nought locked × (f.sub s.cash locked ≡ free)
          → free_margin s ≡ ok free
      back (locked, w, e) = rw (Locked-locked_from s.pending_leaves nought locked w) (ap ok e)
