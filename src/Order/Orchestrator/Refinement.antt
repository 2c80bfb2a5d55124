-- ===== src/Order/Orchestrator/Refinement.antt =====
-- The handlers of the orchestrator and the plans, over every documented database client.
use hotdrop_orchestration.Base.{
  Key, ◌≡◌, refl, Option, none, some, arith, ◌==◌, Bool-cases, Option-cases, truthy, inl, inr,
}
use hotdrop_orchestration.Contracts.{SagaReply}
use hotdrop_orchestration.Result.{Tx}
use hotdrop_orchestration.Prisma.{Prisma, Documented, in_memory, is_in_memory}
use hotdrop_orchestration.Messaging.{Env}
use hotdrop_orchestration.Order.{Order, SagaInstance, OrderStore}
use hotdrop_orchestration.Order.Orchestrator.{
  is_terminal, is_cancelled, is_cancellable, is_courier_assigned, on_reply, on_delivered,
  cancel_order, reply_rows, delivered_rows, cancel_rows,
}
use hotdrop_orchestration.Order.Orchestrator.Plan.{
  Reaction, ignored, carried_out, refused, received, order_of, saga_of, settled, requested,
  reply_reaction, delivery_reaction, cancel_reaction,
}
use hotdrop_orchestration.Order.Orchestrator.Worked.{
  worked, consume-settled, reply_to-worked, capture-worked, cancel_now_worked,
}

reply_rows_lem :
    (env : Env) (s : OrderStore) (reply : SagaReply) (o : Option Order) (g : Option SagaInstance)
    → order_of reply.order_id s ≡ o
    → saga_of reply.order_id s ≡ g
    → reply_rows in_memory env reply o g s ≡ worked env reply.order_id (reply_reaction reply o g) s
unfolding reply_rows
reply_rows_lem env s reply none g found held = refl
reply_rows_lem env s reply (some order) none found held = refl
reply_rows_lem env s reply (some order) (some saga) found held =
    elim (Bool-cases (is_terminal order.status)) [
      | inl over ↦ rw over
      | inr live ↦
          rw live
            (reply_to-worked env s order saga reply.order_id found held reply reply.status _ refl)
    ]

-- A reply to the orchestrator does what the table says, in every case: known messages, unknown
-- orders, orders that have ended, replies without their data, forward steps and failed steps.
pub on_reply-settled :
    (db : Prisma)
    → Documented db
    → (env : Env) (message_id : Key) (reply : SagaReply) (s : OrderStore)
    → on_reply db env message_id reply s
      ≡ settled env message_id reply.order_id
          (received message_id s)
          (reply_reaction reply (order_of reply.order_id s) (saga_of reply.order_id s))
          s
unfolding on_reply
on_reply-settled db law env message_id reply s = rw (is_in_memory law) (
    consume-settled env message_id
      (λ t. reply_rows in_memory env reply (order_of reply.order_id t) (saga_of reply.order_id t) t)
      s reply.order_id _ _ refl (reply_rows_lem env s reply _ _ refl refl))

delivered_rows_lem :
    (env : Env) (s : OrderStore) (id : Key) (o : Option Order) (g : Option SagaInstance)
    → order_of id s ≡ o
    → saga_of id s ≡ g
    → delivered_rows in_memory env id o g s ≡ worked env id (delivery_reaction id o g) s
unfolding delivered_rows
delivered_rows_lem env s id none g found held = refl
delivered_rows_lem env s id (some order) none found held = refl
delivered_rows_lem env s id (some order) (some saga) found held =
    elim (Bool-cases (is_courier_assigned order.status)) [
      | inl under_way ↦ elim (Option-cases (truthy saga.payment_id)) [
        | inl e ↦ rw (under_way, e)
        | inr (k, e) ↦ rw (under_way, e) (capture-worked env s order saga id found held k)
      ]
      | inr other ↦ rw other
    ]

-- A delivery event does what the table says: it makes an order that waits for its courier DELIVERED
-- and asks for the capture of its payment, and changes nothing but the inbox in every other case.
pub on_delivered-settled :
    (db : Prisma)
    → Documented db
    → (env : Env) (message_id id : Key) (s : OrderStore)
    → on_delivered db env message_id id s
      ≡ settled env message_id id
          (received message_id s)
          (delivery_reaction id (order_of id s) (saga_of id s))
          s
unfolding on_delivered
on_delivered-settled db law env message_id id s = rw (is_in_memory law) (
    consume-settled env message_id
      (λ t. delivered_rows in_memory env id (order_of id t) (saga_of id t) t) s id _ _ refl
      (delivered_rows_lem env s id _ _ refl refl))

cancel_rows_lem :
    (env : Env) (s : OrderStore) (id customer : Key) (o : Option Order) (g : Option SagaInstance)
    → order_of id s ≡ o
    → saga_of id s ≡ g
    → cancel_rows in_memory env id customer o g s
      ≡ worked env id (cancel_reaction id customer o g) s
unfolding cancel_rows
cancel_rows_lem env s id customer none g found held = refl
cancel_rows_lem env s id customer (some order) none found held = refl
cancel_rows_lem env s id customer (some order) (some saga) found held =
    elim (Bool-cases (order.customer_id == customer)) [
      | inr other ↦ rw other
      | inl own ↦ elim (Bool-cases (is_cancelled order.status)) [
        | inl already ↦ rw (own, already)
        | inr open_order ↦ elim (Bool-cases (is_cancellable order.status)) [
          | inl early ↦
              rw (own, open_order, early) (cancel_now_worked env s order saga id found held)
          | inr late ↦ rw (own, open_order, late)
        ]
      ]
    ]

request_lem :
    (env : Env) (id : Key) (work : Tx OrderStore (Unit {0})) (r : Reaction) (s : OrderStore)
    → work s ≡ worked env id r s
    → in_memory.transaction work s ≡ requested env id r s
request_lem env id work ignored s e = ground arith
request_lem env id work (carried_out plan) s e = ground arith
request_lem env id work (refused x) s e = ground arith

-- A cancellation does what the table says: NOT_FOUND for an order that is missing or another
-- customer's, nothing for an order that is cancelled, FAILED_PRECONDITION once the kitchen cooks,
-- and otherwise the void, the release and the end of the order, in this order.
pub cancel_order-requested :
    (db : Prisma)
    → Documented db
    → (env : Env) (id customer : Key) (s : OrderStore)
    → cancel_order db env id customer s
      ≡ requested env id (cancel_reaction id customer (order_of id s) (saga_of id s)) s
unfolding cancel_order
cancel_order-requested db law env id customer s = rw (is_in_memory law) (
    request_lem env id (λ t. cancel_rows in_memory env id customer (order_of id t) (saga_of id t) t)
      _ s (cancel_rows_lem env s id customer _ _ refl refl))
