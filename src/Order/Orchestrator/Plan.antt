-- ===== src/Order/Orchestrator/Plan.antt =====
-- The specification of the orchestrator: what each reply changes, as a table that says nothing of
-- transactions, look-ups or the order of the writes.
use hotdrop_orchestration.Base.{
  Key, ℕ, suc, String, true, Option, none, some, List, [], ◌∷◌, ◌++◌, first, modify_first, ◌==◌,
  if◌then◌else◌, truthy,
}
use hotdrop_orchestration.Contracts.{
  OrderStatus, SagaReply, SagaStep, ReplyStatus, ReplyData, Payload, MessageType, SagaCommand,
  OrderEvent, command, order_event, ok_status, failed_status,
}
use hotdrop_orchestration.Result.{
  Result, ok, err, Error, type_error, rpc_exception, GrpcStatus, order_not_found, not_cancellable,
}
use hotdrop_orchestration.Messaging.{
  Env, OutboxMessage, InboxMessage, create_outbox_message, outbox_row,
}
use hotdrop_orchestration.Order.{Order, SagaInstance, OrderStore}
use hotdrop_orchestration.Order.Orchestrator.{
  is_terminal, is_cancellable, is_cancelled, is_courier_assigned, or_unchanged, reason_of,
}

abbrev pub Message : Type 0
Message = MessageType × Payload

-- A plan: the order's next status, the change of its saga row, and the messages to send, in order.
pub record Plan : Type 0 where
  pub status : OrderStatus
  pub saga : SagaInstance → SagaInstance
  pub messages : List Message

module _ (order : Order) where
  abbrev pub changed : OrderStatus → Message
  changed status = (
    order_event OrderEvent.status_changed,
    Payload.status_body
        (record { order_id = order.id; customer_id = order.customer_id; status = status }),
  )

  abbrev pub to_customer : OrderEvent → Message
  to_customer e = (
    order_event e,
    Payload.customer_body (record { order_id = order.id; customer_id = order.customer_id }),
  )

  abbrev pub ended : OrderEvent → String → Message
  ended e reason = (
    order_event e,
    Payload.reason_body
        (record { order_id = order.id; customer_id = order.customer_id; reason = reason }),
  )

  abbrev pub when_held : Option Key → SagaCommand → (Key → Payload) → List Message
  when_held none c body = []
  when_held (some k) c body = (command c, body k) ∷ []

  abbrev pub void_of : Option Key → List Message
  void_of id =
      when_held (truthy id) SagaCommand.void_payment
        λ k. Payload.payment_body (record { order_id = order.id; payment_id = k })

  abbrev pub release_of : Option Key → List Message
  release_of id =
      when_held (truthy id) SagaCommand.release_portions
        λ k. Payload.release_body (record { order_id = order.id; reservation_id = k })

  abbrev pub unassign_of : Option Key → List Message
  unassign_of id =
      when_held (truthy id) SagaCommand.unassign_courier
        λ k. Payload.unassign_body (record { order_id = order.id; assignment_id = k })

  -- What undoes the resources that the saga row holds, the last acquired first.
  abbrev pub undone : SagaInstance → List Message
  undone g = unassign_of g.assignment_id ++ void_of g.payment_id ++ release_of g.reservation_id

  abbrev pub give_up : String → SagaInstance → SagaInstance
  give_up reason g = record g { compensating = true; last_error = some reason }

  -- A step that went well: the next status and the next command. A step that needs a result and
  -- has none gives no plan.
  abbrev pub forward : SagaStep → Option ReplyData → Option Plan
  forward SagaStep.reserve_portions (some d) = some (record {
    status = OrderStatus.portions_reserved;
    saga = λ g. record g {
      reservation_id = or_unchanged d.reservation_id g.reservation_id;
      step = "AuthorizePayment";
    };
    messages =
        changed OrderStatus.portions_reserved
        ∷ (
          command SagaCommand.authorize_payment,
          Payload.authorize_body (record {
            order_id = order.id;
            customer_id = order.customer_id;
            amount_cents = order.total_cents;
          }),
        )
        ∷ [];
  })
  forward SagaStep.authorize_payment (some d) = some (record {
    status = OrderStatus.payment_authorized;
    saga =
        λ g. record g { payment_id = or_unchanged d.payment_id g.payment_id; step = "AcceptOrder" };
    messages =
        changed OrderStatus.payment_authorized
        ∷ (command SagaCommand.accept_order, Payload.accept_body (record { order_id = order.id }))
        ∷ [];
  })
  forward SagaStep.accept_order d = some (record {
    status = OrderStatus.preparing;
    saga = λ g. record g { step = "AssignCourier" };
    messages =
        changed OrderStatus.preparing
        ∷ to_customer OrderEvent.confirmed
        ∷ (
          command SagaCommand.assign_courier,
          Payload.assign_body
              (record { order_id = order.id; delivery_address = order.delivery_address }),
        )
        ∷ [];
  })
  forward SagaStep.assign_courier (some d) = some (record {
    status = OrderStatus.courier_assigned;
    saga = λ g. record g {
      assignment_id = or_unchanged d.assignment_id g.assignment_id;
      step = "AwaitDelivery";
    };
    messages = changed OrderStatus.courier_assigned ∷ [];
  })
  forward SagaStep.capture_payment d = some (record {
    status = OrderStatus.completed;
    saga = λ g. record g { step = "Completed" };
    messages = changed OrderStatus.completed ∷ to_customer OrderEvent.completed ∷ [];
  })
  forward _ none = none

  -- A step that failed: a reservation that fails has acquired nothing; after any other failure what
  -- the saga row holds is undone, the last acquired first.
  abbrev pub backward : SagaInstance → String → SagaStep → Plan
  backward g reason SagaStep.reserve_portions = record {
    status = OrderStatus.rejected;
    saga = give_up reason;
    messages = changed OrderStatus.rejected ∷ ended OrderEvent.rejected reason ∷ [];
  }
  backward g reason _ = record {
    status = OrderStatus.cancelled;
    saga = give_up reason;
    messages = undone g ++ (changed OrderStatus.cancelled ∷ ended OrderEvent.cancelled reason ∷ []);
  }

abbrev pub plan_of : Order → SagaInstance → SagaReply → ReplyStatus → Option Plan
plan_of order g reply ok_status = forward order reply.step reply.result
plan_of order g reply failed_status = some (backward order g (reason_of reply.reason) reply.step)

-- The outbox after the messages were written, the first with the n-th id.
abbrev pub send : Env → ℕ → List Message → List OutboxMessage → List OutboxMessage
send env n [] out = out
send env n ((type, body) ∷ ms) out =
    send env (suc n) ms (out ++ outbox_row env (create_outbox_message env n type body) ∷ [])

abbrev pub drawn_after : ℕ → List Message → ℕ
drawn_after n [] = n
drawn_after n (m ∷ ms) = drawn_after (suc n) ms

abbrev pub with_inbox : Env → Key → OrderStore → OrderStore
with_inbox env message_id s = record s {
  inbox = s.inbox ++ record { message_id = message_id; processed_at = env.now } ∷ [];
}

-- The database after a plan for one order was carried out.
abbrev pub planned : Env → Key → Plan → OrderStore → OrderStore
planned env id plan s = record s {
  tables = record {
    orders =
        modify_first (λ o. o.id == id) (λ o. record o { status = plan.status }) s.tables.orders;
    sagas = modify_first (λ g. g.order_id == id) plan.saga s.tables.sagas;
  };
  outbox = send env s.drawn plan.messages s.outbox;
  drawn = drawn_after s.drawn plan.messages;
}

-- What a message does to the order that it names: nothing, a plan, or an exception.
pub data Reaction : Type 0 where
  ignored : Reaction
  carried_out : Plan → Reaction
  refused : Error → Reaction

abbrev pub planned_or_refused : Option Plan → Reaction
planned_or_refused none = refused type_error
planned_or_refused (some plan) = carried_out plan

-- A reply is heard only by an order that exists with its saga and has not ended.
abbrev pub reply_reaction : SagaReply → Option Order → Option SagaInstance → Reaction
reply_reaction reply (some order) (some saga) =
    if is_terminal order.status
    then ignored
    else planned_or_refused (plan_of order saga reply reply.status)
reply_reaction reply _ _ = ignored

abbrev pub capture_plan : Key → Order → Option Key → Reaction
capture_plan id order none = ignored
capture_plan id order (some k) = carried_out (record {
  status = OrderStatus.delivered;
  saga = λ g. record g { step = "CapturePayment" };
  messages =
      changed order OrderStatus.delivered
      ∷ (
        command SagaCommand.capture_payment,
        Payload.payment_body (record { order_id = id; payment_id = k }),
      )
      ∷ [];
})

-- A delivery is heard only while the courier is under way, and only if a payment is held.
abbrev pub delivery_reaction : Key → Option Order → Option SagaInstance → Reaction
delivery_reaction id (some order) (some saga) =
    if is_courier_assigned order.status
    then capture_plan id order (truthy saga.payment_id)
    else ignored
delivery_reaction id _ _ = ignored

abbrev pub cancel_plan : Order → SagaInstance → Plan
cancel_plan order saga = record {
  status = OrderStatus.cancelled;
  saga = give_up order "CANCELLED_BY_CUSTOMER";
  messages =
      (void_of order saga.payment_id ++ release_of order saga.reservation_id)
      ++ (changed order OrderStatus.cancelled
          ∷ ended order OrderEvent.cancelled "CANCELLED_BY_CUSTOMER"
          ∷ []);
}

-- A customer may cancel her own order until the kitchen cooks; to do so twice changes nothing.
abbrev pub cancel_reaction : Key → Key → Option Order → Option SagaInstance → Reaction
cancel_reaction id customer (some order) (some saga) =
    if order.customer_id == customer
    then (if is_cancelled order.status
        then ignored
        else if is_cancellable order.status
        then carried_out (cancel_plan order saga)
        else refused
            (rpc_exception GrpcStatus.failed_precondition (not_cancellable id order.status)))
    else refused (rpc_exception GrpcStatus.not_found (order_not_found id))
cancel_reaction id customer _ _ = refused (rpc_exception GrpcStatus.not_found (order_not_found id))

-- A message that is new is recorded together with what it does; one that is known does nothing.
abbrev pub effect : Env → Key → Key → Reaction → OrderStore → Result (Unit {0}) × OrderStore
effect env message_id id ignored s = (ok tt, with_inbox env message_id s)
effect env message_id id (carried_out plan) s =
    (ok tt, with_inbox env message_id (planned env id plan s))
effect env message_id id (refused e) s = (err e, s)

abbrev pub settled :
    Env → Key → Key → Option InboxMessage → Reaction → OrderStore → Result (Unit {0}) × OrderStore
settled env message_id id none r s = effect env message_id id r s
settled env message_id id (some _) r s = (ok tt, s)

-- A request has no message to record.
abbrev pub requested : Env → Key → Reaction → OrderStore → Result (Unit {0}) × OrderStore
requested env id ignored s = (ok tt, s)
requested env id (carried_out plan) s = (ok tt, planned env id plan s)
requested env id (refused e) s = (err e, s)

abbrev pub order_of : Key → OrderStore → Option Order
order_of id s = first (λ o. o.id == id) s.tables.orders

abbrev pub saga_of : Key → OrderStore → Option SagaInstance
saga_of id s = first (λ g. g.order_id == id) s.tables.sagas

abbrev pub received : Key → OrderStore → Option InboxMessage
received message_id s = first (λ m. m.message_id == message_id) s.inbox
