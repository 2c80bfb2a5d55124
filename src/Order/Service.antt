-- ===== src/Order/Service.antt =====
-- apps/order-service/src/order: order.service.ts, place-order.input.ts, order.controller.ts and
-- order-query.controller.ts.
pub mod Placing
pub mod Listing
use hotdrop_orchestration.Base.{
  Key, ℕ, suc, ◌+◌, ◌*◌, String, Bool, false, not, Option, none, some, List, [], ◌∷◌, map, ◌==◌,
  if◌then◌else◌,
}
use hotdrop_orchestration.Contracts.{OrderStatus, OrderLineInput, Payload, SagaCommand, command}
use hotdrop_orchestration.Result.{
  Result, ok, err, Tx, rpc_exception, GrpcStatus, order_not_found, pure, ◌>>=◌, ◌>>◌,
}
use hotdrop_orchestration.Prisma.{Prisma}
use hotdrop_orchestration.Prisma.Ordering.{OrderBy}
use hotdrop_orchestration.Messaging.{Env, write_outbox}
use hotdrop_orchestration.Order.{
  Order, OrderLine, SagaInstance, OrderTables, OrderStore, order_key, saga_key,
}
use hotdrop_orchestration.Order.Orchestrator.{cancel_order}

pub record PlaceOrderInput : Type 0 where
  pub customer_id : Key
  pub delivery_address : String
  pub lines : List OrderLine

pub record OrderView : Type 0 where
  pub id : Key
  pub customer_id : Key
  pub status : OrderStatus
  pub delivery_address : String
  pub total_cents : ℕ
  pub lines : List OrderLine

-- input.lines.reduce((sum, l) => sum + l.qty * l.unitPriceCents, 0), from a sum so far.
unfoldable pub add_lines : ℕ → List OrderLine → ℕ
add_lines sum [] = sum
add_lines sum (l ∷ lines) = add_lines (sum + l.qty * l.unit_price_cents) lines

unfoldable pub line_inputs : List OrderLine → List OrderLineInput
line_inputs = map λ l. record { drop_id = l.drop_id; qty = l.qty }

unfoldable pub to_view : Order → OrderView
to_view o = record {
  id = o.id;
  customer_id = o.customer_id;
  status = o.status;
  delivery_address = o.delivery_address;
  total_cents = o.total_cents;
  lines = o.lines;
}

abbrev pub new_order : Env → ℕ → PlaceOrderInput → ℕ → Order
new_order env drawn input total_cents = record {
  id = env.cuid drawn;
  customer_id = input.customer_id;
  status = OrderStatus.placed;
  delivery_address = input.delivery_address;
  total_cents = total_cents;
  created_at = env.now;
  lines = input.lines;
}

abbrev pub new_saga : Key → SagaInstance
new_saga order_id = record {
  order_id = order_id;
  step = "ReservePortions";
  compensating = false;
  reservation_id = none;
  payment_id = none;
  assignment_id = none;
  last_error = none;
}

unfoldable pub view_of : Option Order → Option OrderView
unfolding to_view
view_of none = none
view_of (some o) = some (to_view o)

unfoldable pub owned_view : Key → Key → Option OrderView → Result OrderView
owned_view order_id customer_id none =
    err (rpc_exception GrpcStatus.not_found (order_not_found order_id))
owned_view order_id customer_id (some v) =
    if not (v.customer_id == customer_id)
    then err (rpc_exception GrpcStatus.not_found (order_not_found order_id))
    else ok v

unfoldable pub found_view : Key → Option OrderView → Result OrderView
found_view order_id none = err (rpc_exception GrpcStatus.not_found (order_not_found order_id))
found_view order_id (some v) = ok v

-- return { orderId, status: "PLACED" }
unfoldable pub placed_answer : Result Key × OrderStore → Result (Key × OrderStatus) × OrderStore
placed_answer (ok id, s) = (ok (id, OrderStatus.placed), s)
placed_answer (err e, s) = (err e, s)

module _ (db : Prisma) where
  unfoldable pub get_order : Key → OrderStore → Option OrderView
  unfolding view_of
  get_order order_id s = view_of (db.find_unique order_key order_id s.tables.orders)

  unfoldable pub list_orders : OrderBy → Key → OrderStore → List OrderView
  unfolding to_view
  list_orders order customer_id s =
      let orders = db.find_many (λ o. o.customer_id == customer_id) s.tables.orders in
      map to_view (order.descending (λ o. o.created_at) orders)

  -- OrderQueryController.getOrder
  unfoldable pub grpc_get_order : Key → Key → OrderStore → Result OrderView
  unfolding owned_view get_order
  grpc_get_order order_id customer_id s = owned_view order_id customer_id (get_order order_id s)

module _ (db : Prisma) (env : Env) where
  unfoldable pub create_order : PlaceOrderInput → ℕ → Tx OrderStore Key
  create_order input total_cents s =
      let row = new_order env s.drawn input total_cents in
      elim (db.create [] row s.tables.orders) [
        | ok rows ↦
            ok (
              row.id,
              record s { tables = record (s.tables) { orders = rows }; drawn = suc s.drawn },
            )
        | err e ↦ err e
      ]

  unfoldable pub create_saga : Key → Tx OrderStore (Unit {0})
  create_saga order_id s = elim (db.create (saga_key ∷ []) (new_saga order_id) s.tables.sagas) [
    | ok rows ↦ ok (tt, record s { tables = record (s.tables) { sagas = rows } })
    | err e ↦ err e
  ]

  unfoldable pub place_work : PlaceOrderInput → Tx OrderStore Key
  unfolding create_order create_saga add_lines line_inputs write_outbox
  place_work input = do
    order_id ← create_order input (add_lines 0 input.lines)
    create_saga order_id
    write_outbox db env (command SagaCommand.reserve_portions)
        (Payload.reserve_body (record { order_id = order_id; lines = line_inputs input.lines }))
    pure order_id

  unfoldable pub place_order : PlaceOrderInput → OrderStore → Result Key × OrderStore
  unfolding place_work
  place_order input = db.transaction (place_work input)

  -- The gRPC methods of OrderQueryController.
  unfoldable pub grpc_place_order :
      PlaceOrderInput → OrderStore → Result (Key × OrderStatus) × OrderStore
  unfolding placed_answer
  grpc_place_order input s = placed_answer (place_order input s)

  unfoldable pub grpc_cancel_order : Key → Key → OrderStore → Result OrderView × OrderStore
  unfolding cancel_order found_view get_order
  grpc_cancel_order order_id customer_id s =
      let (r, t) = cancel_order db env order_id customer_id s in
      elim r [ ok _ ↦ (found_view order_id (get_order db order_id t), t) | err e ↦ (err e, t) ]
