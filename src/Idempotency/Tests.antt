-- ===== src/Idempotency/Tests.antt =====
-- The idempotency router at concrete values.
use quant_stuff.Prelude.{ℕ, ◌≡◌, refl, some, List, [], ◌∷◌, pos, is_blank}
use quant_stuff.Prelude.Dict.{lookup, insert, erase, add, member}
use quant_stuff.Float.{Fixed, decimal, fixed_float}
use quant_stuff.Orders.Types.{OrderSide, ok}
use quant_stuff.Orders.Validate.{Value, positive_scalar}
use quant_stuff.Idempotency.{
  Router, new_router, positive_int, register_order, deregister_order, is_known, retire, make_room,
  generate_client_order_id,
}
use quant_stuff.Idempotency.Invariant.{
  IsValid, new_router-IsValid, register_order-IsValid, deregister_order_active,
}
use quant_stuff.Idempotency.Window.{
  Call, register, deregister, run, Refines, run-Refines, register_order_replay,
}
use quant_stuff.Idempotency.Tokens.{generate_client_order_id_collides}

abbrev empty : Router Fixed ℕ
empty = record {
  history_capacity = 2;
  ttl_seconds = decimal 60 0;
  active_orders = [];
  history_ring = [];
  history_set = [];
}

new_router-IsValid_example : IsValid empty
unfolding new_router positive_int positive_scalar
new_router-IsValid_example = new_router-IsValid (Value.int (pos 2)) (Value.int (pos 60)) empty refl

empty-Refines : Refines (empty, [])
empty-Refines = record { valid = new_router-IsValid_example; window = refl }

abbrev calls : List (Call ℕ)
calls = register "a" 1 ∷ deregister "a" ∷ register "b" 2 ∷ register "a" 3 ∷ []

run-Refines_example : Refines (run calls (empty, []))
run-Refines_example = run-Refines calls (empty, []) empty-Refines

-- the second registration of `a` is refused
replayed : (run calls (empty, [])).0.active_orders ≡ ("b", 2) ∷ []
unfolding register_order deregister_order is_known is_blank retire make_room lookup insert erase add
replayed = refl

register_order_replay_example :
    register_order "a" 7 empty ≡ (ok tt, record empty { active_orders = ("a", 7) ∷ [] })
unfolding lookup insert member
register_order_replay_example = register_order_replay "a" 7 empty [] empty-Refines

abbrev with_order : Router Fixed ℕ
with_order = record empty { active_orders = ("a", 1) ∷ [] }

with_order-IsValid : IsValid with_order
unfolding register_order is_known lookup member insert
with_order-IsValid = register_order-IsValid "a" 1 empty new_router-IsValid_example

deregister_order_active_example :
    deregister_order "a" with_order
    ≡ (ok (some 1), record empty { history_ring = "a" ∷ []; history_set = "a" ∷ [] })
unfolding lookup erase is_blank
deregister_order_active_example =
    deregister_order_active "a" 1 with_order with_order-IsValid refl refl

-- the identity stands for the hash
generate_client_order_id_collides_example :
    let make = generate_client_order_id {F = Fixed} (λ s. s) in
    make
      (Value.str "x:y")
      (Value.str "z")
      (Value.side_member OrderSide.buy)
      (Value.int (pos 5))
      (Value.int (pos 0))
    ≡ make
        (Value.str "x")
        (Value.str "y:z")
        (Value.side_member OrderSide.buy)
        (Value.int (pos 5))
        (Value.int (pos 0))
unfolding is_blank
generate_client_order_id_collides_example =
    generate_client_order_id_collides Fixed (λ s. s) "x" "y" "z" OrderSide.buy 5 0 refl refl refl
      refl
