-- ===== src/Saga.antt =====
-- The services together: a row of one service's outbox, published by its relay, reaches the consumer
-- of another (order.consumer.ts, kitchen.consumer.ts, payment.consumer.ts, dispatch.consumer.ts) by its
-- pattern.
pub mod Answers
pub mod System
pub mod Reserving
pub mod Ties
pub mod Completion
mod Examples
use hotdrop_orchestration.Base.{ℕ, Bool, String, Option, none, some, List, [], ◌∷◌, ◌++◌, ◌≡◌, refl}
use hotdrop_orchestration.Contracts.{Payload, MessageType, SagaCommand, command}
use hotdrop_orchestration.Prisma.{Prisma}
use hotdrop_orchestration.Messaging.{Env, OutboxMessage}
use hotdrop_orchestration.Order.{OrderStore}
use hotdrop_orchestration.Order.Consumer.{SagaMessage, a_reply, a_delivery, order_consumer}
use hotdrop_orchestration.Kitchen.{KitchenStore}
use hotdrop_orchestration.Kitchen.Consumer.{
  KitchenMessage, on_reserve, on_release, on_accept, kitchen_consumer,
}
use hotdrop_orchestration.Payment.{PaymentStore}
use hotdrop_orchestration.Payment.Consumer.{
  PaymentMessage, on_authorize, on_capture, on_void, on_refund, payment_consumer,
}
use hotdrop_orchestration.Dispatch.{DispatchStore}
use hotdrop_orchestration.Dispatch.Consumer.{
  DispatchMessage, on_assign, on_unassign, dispatch_consumer,
}

-- The newest row of an outbox.
abbrev pub newest : List OutboxMessage → Option OutboxMessage
newest [] = none
newest (m ∷ []) = some m
newest (m ∷ n ∷ ms) = newest (n ∷ ms)

pub newest-append : (ms : List OutboxMessage) (m : OutboxMessage) → newest (ms ++ m ∷ []) ≡ some m
newest-append [] m = refl
newest-append (x ∷ []) m = refl
newest-append (x ∷ y ∷ ms) m = newest-append (y ∷ ms) m

-- The handler of the kitchen that takes a body, and of the order service.
unfoldable pub kitchen_message : Payload → Option KitchenMessage
kitchen_message (Payload.reserve_body cmd) = some (on_reserve cmd)
kitchen_message (Payload.release_body cmd) = some (on_release cmd)
kitchen_message (Payload.accept_body cmd) = some (on_accept cmd)
kitchen_message _ = none

unfoldable pub saga_message : Payload → Option SagaMessage
saga_message (Payload.reply_body r) = some (a_reply r)
saga_message (Payload.delivered_body e) = some (a_delivery e)
saga_message _ = none

-- The handler of the payment service, by the pattern, with the gateway's draw.
unfoldable pub payment_message : ℕ → MessageType → Payload → Option PaymentMessage
payment_message draw (command SagaCommand.authorize_payment) (Payload.authorize_body cmd) =
    some (on_authorize draw cmd)
payment_message draw (command SagaCommand.capture_payment) (Payload.payment_body cmd) =
    some (on_capture cmd)
payment_message draw (command SagaCommand.void_payment) (Payload.payment_body cmd) =
    some (on_void cmd)
payment_message draw (command SagaCommand.refund_payment) (Payload.payment_body cmd) =
    some (on_refund cmd)
payment_message draw _ _ = none

-- The handler of the dispatch service, with the courier that its offers find.
unfoldable pub dispatch_message : Option String → Payload → Option DispatchMessage
dispatch_message courier (Payload.assign_body cmd) = some (on_assign courier cmd)
dispatch_message courier (Payload.unassign_body cmd) = some (on_unassign cmd)
dispatch_message courier _ = none

module _ (db : Prisma) (env : Env) where
  unfoldable pub kitchen_hears : ℕ → Option OutboxMessage → KitchenStore → KitchenStore
  unfolding kitchen_message
  kitchen_hears ttl none s = s
  kitchen_hears ttl (some row) s = elim (kitchen_message row.payload) [
    | none ↦ s
    | some msg ↦ (kitchen_consumer db env ttl row.id msg s).1
  ]

  unfoldable pub orders_hear : Option OutboxMessage → OrderStore → OrderStore
  unfolding saga_message
  orders_hear none s = s
  orders_hear (some row) s = elim (saga_message row.payload) [
    | none ↦ s
    | some msg ↦ (order_consumer db env row.id msg s).1
  ]

  unfoldable pub payment_hears : ℕ → ℕ → Option OutboxMessage → PaymentStore → PaymentStore
  unfolding payment_message
  payment_hears failure_rate draw none s = s
  payment_hears failure_rate draw (some row) s = elim (payment_message draw row.type row.payload) [
    | none ↦ s
    | some msg ↦ (payment_consumer db env failure_rate row.id msg s).1
  ]

  unfoldable pub dispatch_hears :
      Option String → Option OutboxMessage → DispatchStore → DispatchStore
  unfolding dispatch_message
  dispatch_hears courier none s = s
  dispatch_hears courier (some row) s = elim (dispatch_message courier row.payload) [
    | none ↦ s
    | some msg ↦ (dispatch_consumer db env row.id msg s).1
  ]
