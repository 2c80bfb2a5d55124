-- ===== src/Saga/Completion/Run.antt =====
-- The deliveries of an order for which every step goes well, as a run of the four services.
use hotdrop_orchestration.Base.{
  ℕ, zero, suc, String, ◌≡◌, none, some, List, [], ◌∷◌, false, ltb, ◌==◌, truthy,
}
use hotdrop_orchestration.Contracts.{
  OrderStatus, Payload, SagaCommand, DeliveryEvent, command, saga_reply, delivery_event,
}
use hotdrop_orchestration.Prisma.{in_memory}
use hotdrop_orchestration.Messaging.{Env, OutboxMessage}
use hotdrop_orchestration.Order.{Order}
use hotdrop_orchestration.Order.Service.{line_inputs, new_saga}
use hotdrop_orchestration.Order.Orchestrator.Plan.{order_of, saga_of}
use hotdrop_orchestration.Kitchen.{Drop, reservation_key}
use hotdrop_orchestration.Kitchen.Service.{reserved_reply, accepted_reply}
use hotdrop_orchestration.Kitchen.Inventory.{taken}
use hotdrop_orchestration.Kitchen.Reserving.{for_order}
use hotdrop_orchestration.Payment.{payment_key}
use hotdrop_orchestration.Payment.Service.{authorized_reply, captured_reply}
use hotdrop_orchestration.Payment.Outcomes.{by_order}
use hotdrop_orchestration.Dispatch.{assignment_key}
use hotdrop_orchestration.Dispatch.Service.{assigned_reply, complete_delivery}
use hotdrop_orchestration.Dispatch.Assigning.{delivery_of}
use hotdrop_orchestration.Saga.{kitchen_hears, payment_hears, dispatch_hears, orders_hear}
use hotdrop_orchestration.Saga.System.{System, IsRow, IsNew}
use hotdrop_orchestration.Saga.Completion.Orders.{AreNew, row_of}

-- The k-th number after n.
abbrev pub later : ℕ → ℕ → ℕ
later zero n = n
later (suc k) n = suc (later k n)

-- What each service reads of the world, the gateway's rate and draw, and the courier that is found.
pub record Worlds : Type 0 where
  pub orders : Env
  pub kitchen : Env
  pub payment : Env
  pub dispatch : Env
  pub ttl : ℕ
  pub failure_rate : ℕ
  pub draw : ℕ
  pub courier : String

module _ (w : Worlds) (s : System) (o : Order) where
  abbrev od : ℕ
  od = s.orders.drawn

  abbrev kd : ℕ
  kd = s.kitchen.drawn

  abbrev pd : ℕ
  pd = s.payment.drawn

  abbrev dd : ℕ
  dd = s.dispatch.drawn

  -- The rows that are delivered, in this order: the commands and the answers.
  abbrev pub reserved : OutboxMessage
  reserved =
      row_of w.kitchen (later 1 kd) saga_reply
        (Payload.reply_body (reserved_reply o.id (w.kitchen.cuid kd)))

  abbrev pub authorize : OutboxMessage
  authorize = row_of w.orders (later 1 od) (command SagaCommand.authorize_payment) (
      Payload.authorize_body
        (record { order_id = o.id; customer_id = o.customer_id; amount_cents = o.total_cents }))

  abbrev pub authorized : OutboxMessage
  authorized =
      row_of w.payment (later 1 pd) saga_reply
        (Payload.reply_body (authorized_reply o.id (w.payment.cuid pd)))

  abbrev pub accept : OutboxMessage
  accept =
      row_of w.orders (later 3 od) (command SagaCommand.accept_order)
        (Payload.accept_body (record { order_id = o.id }))

  abbrev pub accepted : OutboxMessage
  accepted = row_of w.kitchen (later 2 kd) saga_reply (Payload.reply_body (accepted_reply o.id))

  abbrev pub assign : OutboxMessage
  assign =
      row_of w.orders (later 6 od) (command SagaCommand.assign_courier)
        (Payload.assign_body (record { order_id = o.id; delivery_address = o.delivery_address }))

  abbrev pub assigned : OutboxMessage
  assigned =
      row_of w.dispatch (later 2 dd) saga_reply
        (Payload.reply_body (assigned_reply o.id (w.dispatch.cuid dd) w.courier))

  abbrev pub delivered : OutboxMessage
  delivered =
      row_of w.dispatch (later 3 dd) (delivery_event DeliveryEvent.delivered)
        (Payload.delivered_body (record { order_id = o.id }))

  abbrev pub capture : OutboxMessage
  capture =
      row_of w.orders (later 9 od) (command SagaCommand.capture_payment)
        (Payload.payment_body (record { order_id = o.id; payment_id = w.payment.cuid pd }))

  abbrev pub captured : OutboxMessage
  captured = row_of w.payment (later 2 pd) saga_reply (Payload.reply_body (captured_reply o.id))

  -- The services after each answer was heard.
  module _ (reserve : OutboxMessage) where
    abbrev pub after_reserved : System
    after_reserved = record s {
      kitchen = kitchen_hears in_memory w.kitchen w.ttl (some reserve) s.kitchen;
      orders = orders_hear in_memory w.orders (some reserved) s.orders;
    }

    abbrev pub after_authorized : System
    after_authorized = record after_reserved {
      payment = payment_hears in_memory w.payment w.failure_rate w.draw (some authorize) s.payment;
      orders = orders_hear in_memory w.orders (some authorized) after_reserved.orders;
    }

    abbrev pub after_accepted : System
    after_accepted = record after_authorized {
      kitchen = kitchen_hears in_memory w.kitchen w.ttl (some accept) after_reserved.kitchen;
      orders = orders_hear in_memory w.orders (some accepted) after_authorized.orders;
    }

    abbrev pub after_assigned : System
    after_assigned = record after_accepted {
      dispatch = dispatch_hears in_memory w.dispatch (some w.courier) (some assign) s.dispatch;
      orders = orders_hear in_memory w.orders (some assigned) after_accepted.orders;
    }

    abbrev pub after_delivered : System
    after_delivered = record after_assigned {
      dispatch = complete_delivery in_memory w.dispatch o.id after_assigned.dispatch;
      orders = orders_hear in_memory w.orders (some delivered) after_assigned.orders;
    }

    abbrev pub after_captured : System
    after_captured = record after_delivered {
      payment =
          payment_hears in_memory w.payment w.failure_rate w.draw (some capture)
            after_authorized.payment;
      orders = orders_hear in_memory w.orders (some captured) after_delivered.orders;
    }

    -- An order that was placed and can go well: its command is in the outbox, every line finds its
    -- portions, the participants know nothing of it, the gateway accepts, and what the services
    -- draw is new.
    pub record CanComplete (rows : List Drop) : Type 0 where
      pub asked : IsRow reserve s.orders.outbox
      pub body :
          reserve.payload
          ≡ Payload.reserve_body (record { order_id = o.id; lines = line_inputs o.lines })
      pub order_row : order_of o.id s.orders ≡ some o
      pub saga_row : saga_of o.id s.orders ≡ some (new_saga o.id)
      pub is_placed : o.status ≡ OrderStatus.placed
      pub fits : taken (line_inputs o.lines) s.kitchen.tables.drops ≡ some rows
      pub no_reservation : for_order o.id s.kitchen.tables.reservations ≡ none
      pub no_payment : by_order o.id s.payment ≡ none
      pub no_delivery : delivery_of o.id s.dispatch ≡ none
      pub is_accepted : ltb w.draw w.failure_rate ≡ false
      pub is_text : truthy (some (w.payment.cuid pd)) ≡ some (w.payment.cuid pd)
      pub reservation_new : IsNew reservation_key (w.kitchen.cuid kd) s.kitchen.tables.reservations
      pub reservation_later :
          IsNew reservation_key (w.kitchen.cuid (later 2 kd)) s.kitchen.tables.reservations
      pub reservation_apart : (w.kitchen.cuid kd == w.kitchen.cuid (later 2 kd)) ≡ false
      pub payment_new : IsNew payment_key (w.payment.cuid pd) s.payment.tables.payments
      pub payment_later : IsNew payment_key (w.payment.cuid (later 2 pd)) s.payment.tables.payments
      pub payment_apart : (w.payment.cuid pd == w.payment.cuid (later 2 pd)) ≡ false
      pub assignment_new : IsNew assignment_key (w.dispatch.cuid dd) s.dispatch.tables.assignments
      pub at_orders :
          AreNew
            (reserved.id ∷ authorized.id ∷ accepted.id ∷ assigned.id ∷ delivered.id ∷ captured.id
              ∷ [])
            s.orders.inbox
      pub at_kitchen : AreNew (reserve.id ∷ accept.id ∷ []) s.kitchen.inbox
      pub at_payment : AreNew (authorize.id ∷ capture.id ∷ []) s.payment.inbox
      pub at_dispatch : AreNew (assign.id ∷ []) s.dispatch.inbox
