-- ===== src/Order/Orchestrator.antt =====
-- apps/order-service/src/order/orchestrator.service.ts: the central state machine of the saga.
pub mod Plan
pub mod Writes
pub mod Worked
pub mod Refinement
pub mod Live
pub mod Safety
pub mod Journey
pub mod Forward
pub mod Races
use hotdrop_orchestration.Base.{
  Key, String, Bool, true, false, not, Option, none, some, ◌==◌, if◌then◌else◌, truthy,
}
use hotdrop_orchestration.Contracts.{
  OrderStatus, SagaReply, SagaStep, ReplyStatus, ReplyData, Payload, MessageType, SagaCommand,
  OrderEvent, command, order_event, ok_status, failed_status,
}
use hotdrop_orchestration.Result.{
  Result, ok, err, Tx, rpc_exception, type_error, order_not_found, not_cancellable, GrpcStatus,
  throw, done, ◌>>=◌, ◌>>◌,
}
use hotdrop_orchestration.Prisma.{Prisma}
use hotdrop_orchestration.Messaging.{Env, write_outbox, write_inbox, find_inbox}
use hotdrop_orchestration.Order.{Order, SagaInstance, OrderStore, order_key, saga_key}

-- new Set(["COMPLETED", "CANCELLED", "REJECTED"]).has
unfoldable pub is_terminal : OrderStatus → Bool
is_terminal OrderStatus.completed = true
is_terminal OrderStatus.cancelled = true
is_terminal OrderStatus.rejected = true
is_terminal _ = false

-- new Set(["PLACED", "PORTIONS_RESERVED", "PAYMENT_AUTHORIZED"]).has
unfoldable pub is_cancellable : OrderStatus → Bool
is_cancellable OrderStatus.placed = true
is_cancellable OrderStatus.portions_reserved = true
is_cancellable OrderStatus.payment_authorized = true
is_cancellable _ = false

unfoldable pub is_cancelled : OrderStatus → Bool
is_cancelled OrderStatus.cancelled = true
is_cancelled _ = false

unfoldable pub is_courier_assigned : OrderStatus → Bool
is_courier_assigned OrderStatus.courier_assigned = true
is_courier_assigned _ = false

-- A field of an update's data that is undefined leaves the column alone.
abbrev pub or_unchanged : Option Key → Option Key → Option Key
or_unchanged none old = old
or_unchanged (some k) old = some k

abbrev pub reason_of : Option String → String
reason_of none = "saga step failed"
reason_of (some r) = r

-- const { … } = reply.data: a TypeError where there is no data.
abbrev pub data_of : {S : Type 0} → SagaReply → Tx S ReplyData
data_of reply s = elim reply.result [ none ↦ err type_error | some d ↦ ok (d, s) ]

module _ (db : Prisma) (env : Env) where
  unfoldable pub emit : MessageType → Payload → Tx OrderStore (Unit {0})
  unfolding write_outbox
  emit type payload = write_outbox db env type payload

  unfoldable pub update_order : Key → (Order → Order) → Tx OrderStore (Unit {0})
  update_order id f s = elim (db.update order_key id (λ o. some (f o)) s.tables.orders) [
    | ok rows ↦ ok (tt, record s { tables = record (s.tables) { orders = rows } })
    | err e ↦ err e
  ]

  unfoldable pub update_saga : Key → (SagaInstance → SagaInstance) → Tx OrderStore (Unit {0})
  update_saga id f s = elim (db.update saga_key id (λ g. some (f g)) s.tables.sagas) [
    | ok rows ↦ ok (tt, record s { tables = record (s.tables) { sagas = rows } })
    | err e ↦ err e
  ]

  unfoldable pub find_order : Key → OrderStore → Option Order
  find_order id s = db.find_unique order_key id s.tables.orders

  unfoldable pub find_saga : Key → OrderStore → Option SagaInstance
  find_saga id s = db.find_unique saga_key id s.tables.sagas

  unfoldable pub set_status : Order → OrderStatus → Tx OrderStore (Unit {0})
  unfolding emit
  set_status order status = do
    update_order order.id (λ o. record o { status = status })
    emit (order_event OrderEvent.status_changed) (
        Payload.status_body
          (record { order_id = order.id; customer_id = order.customer_id; status = status }))

  -- if (id) { await this.emit(…) }
  unfoldable pub emit_if : Option Key → SagaCommand → (Key → Payload) → Tx OrderStore (Unit {0})
  unfolding emit
  emit_if id c body s = elim (truthy id) [
    | none ↦ ok (tt, s)
    | some k ↦ emit (command c) (body k) s
  ]

  unfoldable pub emit_void : Order → SagaInstance → Tx OrderStore (Unit {0})
  unfolding emit_if
  emit_void order saga =
      emit_if saga.payment_id SagaCommand.void_payment
        λ k. Payload.payment_body (record { order_id = order.id; payment_id = k })

  unfoldable pub emit_release : Order → SagaInstance → Tx OrderStore (Unit {0})
  unfolding emit_if
  emit_release order saga =
      emit_if saga.reservation_id SagaCommand.release_portions
        λ k. Payload.release_body (record { order_id = order.id; reservation_id = k })

  unfoldable pub emit_unassign : Order → SagaInstance → Tx OrderStore (Unit {0})
  unfolding emit_if
  emit_unassign order saga =
      emit_if saga.assignment_id SagaCommand.unassign_courier
        λ k. Payload.unassign_body (record { order_id = order.id; assignment_id = k })

  -- The three writes that end an order unhappily: its status, the saga row, the event.
  unfoldable pub close_with : Order → OrderStatus → OrderEvent → String → Tx OrderStore (Unit {0})
  unfolding emit
  close_with order status event reason = do
    set_status order status
    update_saga order.id (λ g. record g { compensating = true; last_error = some reason })
    emit (order_event event) (
        Payload.reason_body
          (record { order_id = order.id; customer_id = order.customer_id; reason = reason }))

  -- advance(tx, order, saga, reply): the switch on reply.step.
  unfoldable pub advance_step : Order → SagaReply → SagaStep → Tx OrderStore (Unit {0})
  unfolding emit
  advance_step order reply SagaStep.reserve_portions = do
    d ← data_of reply
    set_status order OrderStatus.portions_reserved
    update_saga order.id λ g. record g {
      reservation_id = or_unchanged d.reservation_id g.reservation_id;
      step = "AuthorizePayment";
    }
    emit (command SagaCommand.authorize_payment) (
        Payload.authorize_body (record {
          order_id = order.id;
          customer_id = order.customer_id;
          amount_cents = order.total_cents;
        }))
  advance_step order reply SagaStep.authorize_payment = do
    d ← data_of reply
    set_status order OrderStatus.payment_authorized
    update_saga order.id
        λ g. record g { payment_id = or_unchanged d.payment_id g.payment_id; step = "AcceptOrder" }
    emit (command SagaCommand.accept_order) (Payload.accept_body (record { order_id = order.id }))
  advance_step order reply SagaStep.accept_order = do
    set_status order OrderStatus.preparing
    update_saga order.id (λ g. record g { step = "AssignCourier" })
    emit (order_event OrderEvent.confirmed)
        (Payload.customer_body (record { order_id = order.id; customer_id = order.customer_id }))
    emit (command SagaCommand.assign_courier) (
        Payload.assign_body
          (record { order_id = order.id; delivery_address = order.delivery_address }))
  advance_step order reply SagaStep.assign_courier = do
    d ← data_of reply
    set_status order OrderStatus.courier_assigned
    update_saga order.id λ g. record g {
      assignment_id = or_unchanged d.assignment_id g.assignment_id;
      step = "AwaitDelivery";
    }
  advance_step order reply SagaStep.capture_payment = do
    set_status order OrderStatus.completed
    update_saga order.id (λ g. record g { step = "Completed" })
    emit (order_event OrderEvent.completed)
        (Payload.customer_body (record { order_id = order.id; customer_id = order.customer_id }))

  unfoldable pub advance : Order → SagaReply → Tx OrderStore (Unit {0})
  advance order reply = advance_step order reply reply.step

  unfoldable pub undo_acquired : Order → SagaInstance → Tx OrderStore (Unit {0})
  undo_acquired order saga = do
    emit_unassign order saga
    emit_void order saga
    emit_release order saga

  unfoldable pub compensate_step :
      Order → SagaInstance → String → SagaStep → Tx OrderStore (Unit {0})
  compensate_step order saga reason SagaStep.reserve_portions =
      close_with order OrderStatus.rejected OrderEvent.rejected reason
  compensate_step order saga reason _ = do
    undo_acquired order saga
    close_with order OrderStatus.cancelled OrderEvent.cancelled reason

  unfoldable pub compensate : Order → SagaInstance → SagaReply → Tx OrderStore (Unit {0})
  compensate order saga reply = compensate_step order saga (reason_of reply.reason) reply.step

  -- Atomic inbox-dedupe, state transition and outbox.
  unfoldable pub consume :
      Key → Tx OrderStore (Unit {0}) → OrderStore → Result (Unit {0}) × OrderStore
  unfolding find_inbox write_inbox
  consume message_id work s = elim (find_inbox db env message_id s) [
    | some _ ↦ (ok tt, s)
    | none ↦ db.transaction (work >> write_inbox db env message_id) s
  ]

  unfoldable pub reply_to :
      Order → SagaInstance → SagaReply → ReplyStatus → Tx OrderStore (Unit {0})
  reply_to order saga reply failed_status = compensate order saga reply
  reply_to order saga reply ok_status = advance order reply

  -- The body of onReply on the rows that the two look-ups find.
  unfoldable pub reply_rows :
      SagaReply → Option Order → Option SagaInstance → Tx OrderStore (Unit {0})
  reply_rows reply (some order) (some saga) =
      if is_terminal order.status then done else reply_to order saga reply reply.status
  reply_rows reply _ _ = done

  unfoldable pub on_reply : Key → SagaReply → OrderStore → Result (Unit {0}) × OrderStore
  unfolding consume find_order find_saga
  on_reply message_id reply =
      consume message_id
        λ s. reply_rows reply (find_order reply.order_id s) (find_saga reply.order_id s) s

  unfoldable pub capture : Key → Order → Key → Tx OrderStore (Unit {0})
  unfolding emit
  capture order_id order payment_id = do
    set_status order OrderStatus.delivered
    update_saga order_id (λ g. record g { step = "CapturePayment" })
    emit (command SagaCommand.capture_payment)
        (Payload.payment_body (record { order_id = order_id; payment_id = payment_id }))

  unfoldable pub delivered_rows :
      Key → Option Order → Option SagaInstance → Tx OrderStore (Unit {0})
  delivered_rows order_id (some order) (some saga) =
      if is_courier_assigned order.status
      then elim (truthy saga.payment_id) [ none ↦ done | some k ↦ capture order_id order k ]
      else done
  delivered_rows order_id _ _ = done

  unfoldable pub on_delivered : Key → Key → OrderStore → Result (Unit {0}) × OrderStore
  unfolding consume find_order find_saga
  on_delivered message_id order_id =
      consume message_id
        λ s. delivered_rows order_id (find_order order_id s) (find_saga order_id s) s

  unfoldable pub cancel_now : Order → SagaInstance → Tx OrderStore (Unit {0})
  cancel_now order saga = do
    emit_void order saga
    emit_release order saga
    close_with order OrderStatus.cancelled OrderEvent.cancelled "CANCELLED_BY_CUSTOMER"

  unfoldable pub cancel_rows :
      Key → Key → Option Order → Option SagaInstance → Tx OrderStore (Unit {0})
  cancel_rows order_id customer_id (some order) (some saga) =
      if not (order.customer_id == customer_id)
      then throw (rpc_exception GrpcStatus.not_found (order_not_found order_id))
      else if is_cancelled order.status
      then done
      else if not (is_cancellable order.status)
      then throw
          (rpc_exception GrpcStatus.failed_precondition (not_cancellable order_id order.status))
      else cancel_now order saga
  cancel_rows order_id customer_id _ _ =
      throw (rpc_exception GrpcStatus.not_found (order_not_found order_id))

  unfoldable pub cancel_order : Key → Key → OrderStore → Result (Unit {0}) × OrderStore
  unfolding find_order find_saga
  cancel_order order_id customer_id =
      db.transaction
        λ s. cancel_rows order_id customer_id (find_order order_id s) (find_saga order_id s) s
