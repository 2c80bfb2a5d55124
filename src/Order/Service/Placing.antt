-- ===== src/Order/Service/Placing.antt =====
-- What placing an order leaves in the database, and reading it back.
use hotdrop_orchestration.Base.{
  ℕ, suc, ◌+◌, ◌*◌, ◌≡◌, ◌∙◌, ap, none, some, List, [], ◌∷◌, ◌++◌, arith, ◌==◌, ==_refl, total,
  first-append,
}
use hotdrop_orchestration.Contracts.{OrderStatus, Payload, SagaCommand, command}
use hotdrop_orchestration.Result.{ok, err, unique_violation}
use hotdrop_orchestration.Prisma.{Prisma, Documented, in_memory, is_in_memory}
use hotdrop_orchestration.Messaging.{Env, create_outbox_message, outbox_row}
use hotdrop_orchestration.Order.{Order, OrderLine, SagaInstance, OrderStore}
use hotdrop_orchestration.Order.Orchestrator.Plan.{order_of, saga_of}
use hotdrop_orchestration.Order.Service.{
  PlaceOrderInput, add_lines, line_inputs, place_order, grpc_get_order, new_order, new_saga,
}

abbrev pub line_price : OrderLine → ℕ
line_price l = l.qty * l.unit_price_cents

add_lines-total :
    (sum : ℕ) (lines : List OrderLine) → add_lines sum lines ≡ sum + total line_price lines
unfolding add_lines
add_lines-total sum [] = omega arith
add_lines-total sum (l ∷ lines) =
    omega (arith, add_lines-total (sum + l.qty * l.unit_price_cents) lines)

-- The database after an order was placed with the given total.
abbrev pub placed : Env → PlaceOrderInput → ℕ → OrderStore → OrderStore
placed env input cents s = record s {
  tables = record {
    orders = s.tables.orders ++ new_order env s.drawn input cents ∷ [];
    sagas = s.tables.sagas ++ new_saga (env.cuid s.drawn) ∷ [];
  };
  outbox =
      s.outbox
      ++ outbox_row env (
          create_outbox_message env (suc s.drawn) (command SagaCommand.reserve_portions) (
            Payload.reserve_body
              (record { order_id = env.cuid s.drawn; lines = line_inputs input.lines })))
        ∷ [];
  drawn = suc (suc s.drawn);
}

pub place_work_lem :
    (env : Env) (input : PlaceOrderInput) (s : OrderStore)
    → saga_of (env.cuid s.drawn) s ≡ none
    → place_order in_memory env input s
      ≡ (ok (env.cuid s.drawn), placed env input (add_lines 0 input.lines) s)
unfolding place_order
place_work_lem env input s fresh = ground arith

-- The saga row of an order is unique: a second one is refused, and nothing is written.
pub place_work_refused :
    (env : Env) (input : PlaceOrderInput) (s : OrderStore) (g : SagaInstance)
    → saga_of (env.cuid s.drawn) s ≡ some g
    → place_order in_memory env input s ≡ (err unique_violation, s)
unfolding place_order
place_work_refused env input s g held = ground arith

-- Placing an order under a fresh id creates the order with the exact sum of its lines, its saga row
-- and the ReservePortions command together, and its owner reads the order back as PLACED.
pub place-get :
    (db : Prisma)
    → Documented db
    → (env : Env) (input : PlaceOrderInput) (s : OrderStore) → order_of (env.cuid s.drawn) s ≡ none
    → saga_of (env.cuid s.drawn) s ≡ none
    → let id = env.cuid s.drawn in
      let cents = total line_price input.lines in
      (place_order db env input s ≡ (ok id, placed env input cents s))
      × (grpc_get_order db id input.customer_id (placed env input cents s)
          ≡ ok (record {
            id = id;
            customer_id = input.customer_id;
            status = OrderStatus.placed;
            delivery_address = input.delivery_address;
            total_cents = cents;
            lines = input.lines;
          }))
      × (saga_of id (placed env input cents s) ≡ some (new_saga id))
unfolding grpc_get_order
place-get db law env input s no_order no_saga =
    let cents = total line_price input.lines in
    let id = env.cuid s.drawn in
    rw (is_in_memory law) (
      place_work_lem env input s no_saga
          ∙ ap (λ (c : ℕ). (ok id, placed env input c s))
              (add_lines-total 0 input.lines ∙ omega arith),
      ground (
        arith,
        first-append (λ (o : Order). o.id == id) s.tables.orders (new_order env s.drawn input cents)
            no_order,
        ==_refl id,
        ==_refl input.customer_id,
      ),
      first-append (λ g. g.order_id == id) s.tables.sagas (new_saga id) no_saga (==_refl id),
    )
