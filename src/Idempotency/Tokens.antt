-- ===== src/Idempotency/Tokens.antt =====
-- The identifiers that IdempotencyRouter of src/quant/execution/idempotency.py derives.
use text.Mathlib.TextLemmas.{append_assoc}
use Prim.Native.String.{◌++◌ as append}
use quant_stuff.Prelude.{ℕ, ◌≡◌, false, String, pos, is_blank}
use quant_stuff.Orders.Types.{OrderSide, ok}
use quant_stuff.Orders.Validate.{Value, as_str, as_side, timestamp}
use quant_stuff.Idempotency.{payload, generate_client_order_id, text_argument}

-- The name does not show where the strategy ends: a colon in it may as well belong to the symbol.
payload_ambiguous :
    (a b c : String) (side : OrderSide) (t nonce : ℕ)
    → payload (append a (append ":" b)) c side t nonce
      ≡ payload a (append b (append ":" c)) side t nonce
unfolding payload
payload_ambiguous a b c side t nonce = simp append_assoc

text_argument_accepts :
    (F : Type 0) (s : String) → is_blank s ≡ false → text_argument {F = F} (Value.str s) ≡ ok s
unfolding text_argument as_str
text_argument_accepts F s h = rw h

module _ (F : Type 0) (uuid5 : String → String) where
  -- Strategy `a:b` with symbol `c` is given the identifier of strategy `a` with symbol `b:c`, whatever
  -- the hash, if these texts are not blank and side, time and nonce are the same.
  pub generate_client_order_id_collides :
      (a b c : String) (side : OrderSide) (t nonce : ℕ)
      → is_blank a ≡ false
      → is_blank c ≡ false
      → is_blank (append a (append ":" b)) ≡ false
      → is_blank (append b (append ":" c)) ≡ false
      → generate_client_order_id {F = F} uuid5
          (Value.str (append a (append ":" b)))
          (Value.str c)
          (Value.side_member side)
          (Value.int (pos t))
          (Value.int (pos nonce))
        ≡ generate_client_order_id {F = F} uuid5
            (Value.str a)
            (Value.str (append b (append ":" c)))
            (Value.side_member side)
            (Value.int (pos t))
            (Value.int (pos nonce))
  unfolding generate_client_order_id as_side timestamp
  generate_client_order_id_collides a b c side t nonce ha hc hab hbc = rw (
    text_argument_accepts F _ hab,
    text_argument_accepts F _ hc,
    text_argument_accepts F _ ha,
    text_argument_accepts F _ hbc,
    payload_ambiguous a b c side t nonce,
  )
