-- ===== src/Idempotency/Window.antt =====
-- The history of IdempotencyRouter in src/quant/execution/idempotency.py against the list of all tokens
-- that were ever retired, and the replays that it catches.
use quant_stuff.Prelude.{
  ℕ, zero, suc, ◌-◌, ◌≤◌, ◌<◌, ◌≡◌, refl, sym, leb, ◌||◌, inl, inr, Option, some, String, List, [],
  ◌∷◌, ◌++◌, length, length-append, is_blank, Bool-cases, Option-cases, arith, if◌then◌else◌,
}
use quant_stuff.Prelude.Dict.{lookup, contains, insert, member}
use quant_stuff.Orders.Types.{Result, ok, err, duplicate_order}
use quant_stuff.Idempotency.{Router, is_known, register_order, deregister_order, clear}
use quant_stuff.Idempotency.Invariant.{
  IsValid, slide, register_order-IsValid, deregister_order-IsValid, deregister_order_active,
  clear-IsValid,
}

-- the last `c` tokens of a list
abbrev pub drop : ℕ → List String → List String
drop zero s = s
drop (suc n) [] = []
drop (suc n) (k ∷ s) = drop n s

abbrev pub last : ℕ → List String → List String
last c s = drop (length s - c) s

length-drop : (n : ℕ) (s : List String) → length (drop n s) ≡ length s - n
length-drop zero s = omega arith
length-drop (suc n) [] = omega arith
length-drop (suc n) (k ∷ s) = omega (arith, length-drop n s)

drop-append : (n : ℕ) (s t : List String) → n ≤ length s → drop n (s ++ t) ≡ drop n s ++ t
drop-append zero s t h = refl
drop-append (suc n) [] t h = elim h [ ]
drop-append (suc n) (k ∷ s) t h = drop-append n s t (omega arith)

slide-drop :
    (c n : ℕ) (s : List String)
    → length (drop n s) ≡ c
    → 0 < c
    → slide c (drop n s) ≡ drop (suc n) s
slide-drop c zero [] e h = absurd (omega arith)
slide-drop c zero (k ∷ s) e h = ground arith
slide-drop c (suc n) [] e h = absurd (omega arith)
slide-drop c (suc n) (k ∷ s) e h = slide-drop c n s e h

drop_nil : (n : ℕ) → drop n [] ≡ []
drop_nil zero = refl
drop_nil (suc n) = refl

slide_short : (c : ℕ) (s : List String) → length s < c → slide c s ≡ s
slide_short c [] h = refl
slide_short c (k ∷ s) h = ground arith

-- Making room and appending keeps the last `c` tokens.
slide-last :
    (c : ℕ) (s : List String) (k : String)
    → 0 < c
    → slide c (last c s) ++ (k ∷ []) ≡ last c (s ++ (k ∷ []))
slide-last c s k h = elim (Bool-cases (leb c (length s))) [
  | inl full ↦
      let n = length s - c in
      let e : length (s ++ (k ∷ [])) - c ≡ suc n = ground (arith, length-append s (k ∷ [])) in
      rw (
        e,
        slide-drop c n s (ground (arith, length-drop n s)) h,
        drop-append (suc n) s (k ∷ []) (ground arith),
      )
  | inr short ↦
      let e : length (s ++ (k ∷ [])) - c ≡ 0 = ground (arith, length-append s (k ∷ [])) in
      let z : length s - c ≡ 0 = ground arith in rw (e, z, slide_short c s (ground arith))
]

-- The calls that change a router.
pub data Call (R : Type 0) : Type 0 where
  register : String → R → Call R
  deregister : String → Call R
  clear_all : Call R

-- the tokens that were retired since the last `clear`
abbrev pub logged : {R : Type 0} → String → Result (Option R) → List String → List String
logged k (ok (some _)) log = log ++ (k ∷ [])
logged k _ log = log

module _ {F R : Type 0} where
  abbrev pub call : Call R → Router F R × List String → Router F R × List String
  call (register k order) (r, log) = ((register_order k order r).1, log)
  call (deregister k) (r, log) =
      let (result, r') = deregister_order k r in (r', logged k result log)
  call clear_all (r, log) = (clear r, [])

  abbrev pub run : List (Call R) → Router F R × List String → Router F R × List String
  run [] s = s
  run (c ∷ cs) s = run cs (call c s)

  -- The router is valid, and its ring is the last `history_capacity` tokens of the log.
  pub record Refines (s : Router F R × List String) : Type 0 where
    pub valid : IsValid s.0
    pub window : s.0.history_ring ≡ last s.0.history_capacity s.1

  register_order-ring :
      (k : String) (order : R) (r : Router F R)
      → ((register_order k order r).1.history_ring ≡ r.history_ring)
        × ((register_order k order r).1.history_capacity ≡ r.history_capacity)
  unfolding register_order
  register_order-ring k order r = ground arith

  deregister-Refines :
      (k : String) (r : Router F R) (log : List String)
      → Refines (r, log)
      → Refines (call (deregister k) (r, log))
  unfolding deregister_order
  deregister-Refines k r log h = elim (Bool-cases (is_blank k)) [
    | inl blank ↦ rw (blank, deregister_order) h
    | inr b ↦ elim (Option-cases (lookup k r.active_orders)) [
      | inl e ↦ rw (b, deregister_order, e) h
      | inr (order, e) ↦
          let done = deregister_order_active k order r h.valid b e in
          record {
            valid = deregister_order-IsValid k r h.valid;
            window = rw (done, h.window, slide-last r.history_capacity log k h.valid.room);
          }
    ]
  ]

  call-Refines : (c : Call R) (s : Router F R × List String) → Refines s → Refines (call c s)
  unfolding clear
  call-Refines (register k order) (r, log) h = record {
    valid = register_order-IsValid k order r h.valid;
    window = rw ((register_order-ring k order r).0, (register_order-ring k order r).1) h.window;
  }
  call-Refines (deregister k) (r, log) h = deregister-Refines k r log h
  call-Refines clear_all (r, log) h = record {
    valid = clear-IsValid r h.valid;
    window = sym (drop_nil (0 - r.history_capacity));
  }

  -- INV-GW-002: after any calls, in any order, a router that refined its log refines the log of these
  -- calls: it is valid and its ring is the last `history_capacity` tokens that were retired, however long
  -- ago: `ttl_seconds` drops none.
  pub run-Refines :
      (cs : List (Call R)) (s : Router F R × List String) → Refines s → Refines (run cs s)
  run-Refines [] s h = h
  run-Refines (c ∷ cs) s h = run-Refines cs (call c s) (call-Refines c s h)

  -- A token is refused exactly while its order is active or it is among the last `history_capacity`
  -- tokens that were retired, whatever the time since and `ttl_seconds`; a refusal changes nothing, and any other token becomes active.
  pub register_order_replay :
      (k : String) (order : R) (r : Router F R) (log : List String)
      → Refines (r, log)
      → register_order k order r ≡ (
          if contains k r.active_orders || member k (last r.history_capacity log)
          then (err duplicate_order, r)
          else (ok tt, record r { active_orders = insert k order r.active_orders }))
  unfolding register_order is_known
  register_order_replay k order r log h = rw (h.valid.same, h.window)
