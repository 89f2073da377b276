-- ===== src/Idempotency/Invariant.antt =====
-- INV-GW-002: what the methods of IdempotencyRouter in src/quant/execution/idempotency.py keep true.
use quant_stuff.Prelude.{
  ℕ, suc, ◌≤◌, ◌<◌, ◌≡◌, refl, ap, leb, true, false, inl, inr, none, some, String, List, [], ◌∷◌,
  ◌++◌, length, length-append, str_eq_iff, is_blank, Bool-cases, Option-cases, pos, arith,
  if◌then◌else◌,
}
use quant_stuff.Prelude.Dict.{
  lookup, erase, member, add, discard, member-append, lookup-insert, lookup-erase,
}
use quant_stuff.Float.{Float}
use quant_stuff.Orders.Types.{ok}
use quant_stuff.Orders.Ensures.{Ensures, returns, raises, Ensures-bind, ensured, anything}
use quant_stuff.Orders.Validate.{positive_scalar, Value}
use quant_stuff.Idempotency.{
  Router, new_router, positive_int, is_known, register_order, evict, make_room, retire,
  deregister_order, clear,
}

-- no token stands twice
abbrev pub Distinct : List String → Type 0
Distinct [] = Unit
Distinct (k ∷ s) = (member k s ≡ false) × Distinct s

Distinct-append :
    (s : List String) (k : String) → Distinct s → member k s ≡ false → Distinct (s ++ (k ∷ []))
unfolding member
Distinct-append [] k d n = (refl, tt)
Distinct-append (j ∷ s) k d n =
    ground
      (arith, Distinct-append s k d.1, member-append j s (k ∷ []), str_eq_iff j k, str_eq_iff k j)

discard_absent : (k : String) (s : List String) → member k s ≡ false → discard k s ≡ s
unfolding member discard
discard_absent k [] h = refl
discard_absent k (j ∷ s) h = ground (arith, discard_absent k s)

-- the ring after room has been made for a token
abbrev pub slide : ℕ → List String → List String
slide c [] = []
slide c (k ∷ s) = if leb c (suc (length s)) then s else k ∷ s

length-slide : (c : ℕ) (s : List String) → 0 < c → length s ≤ c → length (slide c s) < c
length-slide c [] room h = omega arith
length-slide c (k ∷ s) room h = ground arith

slide-Distinct : (c : ℕ) (s : List String) → Distinct s → Distinct (slide c s)
slide-Distinct c [] d = tt
slide-Distinct c (k ∷ s) d = ground arith

member-slide :
    (c : ℕ) (s : List String) (k : String) → member k (slide c s) ≡ true → member k s ≡ true
unfolding member
member-slide c [] k m = m
member-slide c (j ∷ s) k m = ground arith

add_fresh : (k : String) (s : List String) → member k s ≡ false → add k s ≡ s ++ (k ∷ [])
unfolding add
add_fresh k s h = ground arith

positive_int_lem : {F : Type 0} (v : Value F) → Ensures (λ c. 0 < c) (positive_int v)
unfolding positive_int
positive_int_lem (Value.int (pos (suc n))) = returns (omega arith)
positive_int_lem _ = raises

module _ {F R : Type 0} where
  pub record IsValid (r : Router F R) : Type 0 where
    -- there is room for a token, and the ring fits
    pub room : 0 < r.history_capacity
    pub fits : length r.history_ring ≤ r.history_capacity
    -- the set holds the tokens of the ring, each once
    pub same : r.history_set ≡ r.history_ring
    pub distinct : Distinct r.history_ring
    -- no token is both active and retired
    pub apart : (k : String) → member k r.history_ring ≡ true → lookup k r.active_orders ≡ none

  -- Registration keeps the router valid, whether it succeeds or raises.
  pub register_order-IsValid :
      (k : String) (order : R) (r : Router F R) → IsValid r → IsValid (register_order k order r).1
  unfolding register_order is_known
  register_order-IsValid k order r v = elim (Bool-cases (is_known k r)) [
    | inl known ↦ rw (known, register_order) v
    | inr fresh ↦
        rw (fresh, register_order)
          (record {
            room = v.room;
            fits = v.fits;
            same = v.same;
            distinct = v.distinct;
            apart = λ j m. ground (
              arith,
              lookup-insert k j order r.active_orders,
              str_eq_iff k j,
              v.apart j m,
              ap (member k) v.same,
            );
          })
  ]

  make_room_at :
      (r : Router F R) (ring : List String)
      → r.history_ring ≡ ring
      → r.history_set ≡ ring
      → 0 < r.history_capacity
      → Distinct ring
      → make_room r
        ≡ ok (record r {
          history_ring = slide r.history_capacity ring;
          history_set = slide r.history_capacity ring;
        })
  unfolding make_room evict discard member
  make_room_at r [] e1 e2 room d = ground (arith, ap length e1)
  make_room_at r (k ∷ s) e1 e2 room d =
      ground (arith, ap length e1, discard_absent k s d.0, str_eq_iff k k)

  -- Retiring a token that is not in the history appends it, after the oldest has gone if the ring is full.
  pub retire_lem :
      (k : String) (r : Router F R)
      → IsValid r
      → member k r.history_ring ≡ false
      → let ring = slide r.history_capacity r.history_ring ++ (k ∷ []) in
        retire k r ≡ ok (record r { history_ring = ring; history_set = ring })
  unfolding retire
  retire_lem k r v n =
      let ring = slide r.history_capacity r.history_ring in
      let fresh : member k ring ≡ false =
        ground (arith, member-slide r.history_capacity r.history_ring k) in
      rw (make_room_at r r.history_ring refl v.same v.room v.distinct, add_fresh k ring fresh)

  not-member_of_active :
      (k : String) (order : R) (r : Router F R)
      → IsValid r
      → lookup k r.active_orders ≡ some order
      → member k r.history_ring ≡ false
  not-member_of_active k order r v e = ground (arith, v.apart k)

  erase-IsValid :
      (k : String) (r : Router F R)
      → IsValid r
      → IsValid (record r { active_orders = erase k r.active_orders })
  erase-IsValid k r v = record {
    room = v.room;
    fits = v.fits;
    same = v.same;
    distinct = v.distinct;
    apart = λ j m. ground (arith, lookup-erase k j r.active_orders, v.apart j m);
  }

  -- An active order whose identifier is not blank is taken out and handed back, and its token joins
  -- the history, after the oldest token has gone if the history is full.
  pub deregister_order_active :
      (k : String) (order : R) (r : Router F R)
      → IsValid r
      → is_blank k ≡ false
      → lookup k r.active_orders ≡ some order
      → let ring = slide r.history_capacity r.history_ring ++ (k ∷ []) in
        deregister_order k r ≡ (
          ok (some order),
          record r {
            active_orders = erase k r.active_orders;
            history_ring = ring;
            history_set = ring;
          },
        )
  unfolding deregister_order
  deregister_order_active k order r v b e =
      rw (b, e, retire_lem k _ (erase-IsValid k r v) (not-member_of_active k order r v e))

  retired-IsValid :
      (k : String) (r : Router F R)
      → IsValid r
      → member k r.history_ring ≡ false
      → let ring = slide r.history_capacity r.history_ring ++ (k ∷ []) in
        IsValid (record r {
          active_orders = erase k r.active_orders;
          history_ring = ring;
          history_set = ring;
        })
  unfolding member
  retired-IsValid k r v n =
      let c = r.history_capacity in
      let old = r.history_ring in
      let fresh : member k (slide c old) ≡ false = ground (arith, member-slide c old k) in
      record {
        room = v.room;
        fits =
            omega (arith, length-slide c old v.room v.fits, length-append (slide c old) (k ∷ []));
        same = refl;
        distinct = Distinct-append (slide c old) k (slide-Distinct c old v.distinct) fresh;
        apart = λ j m. ground (
          arith,
          lookup-erase k j r.active_orders,
          member-append j (slide c old) (k ∷ []),
          member-slide c old j,
          v.apart j,
        );
      }

  -- Deregistration keeps the router valid, whether the order was active, was not, or the call raises.
  pub deregister_order-IsValid :
      (k : String) (r : Router F R) → IsValid r → IsValid (deregister_order k r).1
  unfolding deregister_order
  deregister_order-IsValid k r v = elim (Bool-cases (is_blank k)) [
    | inl blank ↦ rw (blank, deregister_order) v
    | inr b ↦ elim (Option-cases (lookup k r.active_orders)) [
      | inl e ↦ rw (b, deregister_order, e) v
      | inr (order, e) ↦
          rw (deregister_order_active k order r v b e)
            (retired-IsValid k r v (not-member_of_active k order r v e))
    ]
  ]

  new_router-Ensures :
      ⦃f : Float F⦄ (capacity ttl : Value F) → Ensures IsValid (new_router R capacity ttl)
  unfolding new_router lookup
  new_router-Ensures capacity ttl = Ensures-bind (positive_int_lem capacity) λ c room.
      Ensures-bind (anything (positive_scalar ttl)) λ _ _. returns (record {
        room = room;
        fits = omega arith;
        same = refl;
        distinct = tt;
        apart = λ k m. refl;
      })

  -- A router that the constructor makes is valid.
  pub new_router-IsValid :
      ⦃f : Float F⦄ (capacity ttl : Value F) (r : Router F R)
      → new_router R capacity ttl ≡ ok r
      → IsValid r
  new_router-IsValid capacity ttl r e = ensured r (new_router-Ensures capacity ttl) e

  pub clear-IsValid : (r : Router F R) → IsValid r → IsValid (clear r)
  unfolding clear lookup
  clear-IsValid r v = record {
    room = v.room;
    fits = omega arith;
    same = refl;
    distinct = tt;
    apart = λ k m. refl;
  }
