-- ===== src/Saga/Completion/Completed.antt =====
-- The run of the four services in which every step of an order goes well.
use hotdrop_orchestration.Base.{suc, ◌≡◌, refl, sym, subst, some, List, [], ◌∷◌, inl, inr}
use hotdrop_orchestration.Contracts.{
  OrderStatus, PaymentStatus, DeliveryStatus, Payload, DeliveryEvent, saga_reply, delivery_event,
}
use hotdrop_orchestration.Prisma.{Prisma, Documented, in_memory, is_in_memory}
use hotdrop_orchestration.Messaging.{OutboxMessage, outbox_row, create_outbox_message}
use hotdrop_orchestration.Order.{Order}
use hotdrop_orchestration.Order.Service.{line_inputs}
use hotdrop_orchestration.Order.Orchestrator.Plan.{order_of}
use hotdrop_orchestration.Kitchen.{Drop, Reservation, confirmed, reservation_key}
use hotdrop_orchestration.Kitchen.Service.{accepted_reply}
use hotdrop_orchestration.Kitchen.Reserving.{for_order, new_reservation}
use hotdrop_orchestration.Payment.{Payment, payment_key}
use hotdrop_orchestration.Payment.Service.{captured_reply}
use hotdrop_orchestration.Payment.Outcomes.{by_id, new_payment}
use hotdrop_orchestration.Dispatch.{Delivery}
use hotdrop_orchestration.Dispatch.Assigning.{delivery_of, new_delivery}
use hotdrop_orchestration.Saga.System.{
  System, IsRow, IsNew, at_kitchen, at_payment, at_dispatch, driven, answered, Reach, here, next,
}
use hotdrop_orchestration.Saga.Completion.Orders.{AreNew, row_of}
use hotdrop_orchestration.Saga.Completion.Participants.{
  kitchen_reserves, kitchen_accepts, payment_authorizes, payment_captures, dispatch_assigns,
  dispatch_delivers,
}
use hotdrop_orchestration.Saga.Completion.Run.{
  later, Worlds, reserved, authorize, authorized, accept, accepted, assign, assigned, delivered,
  capture, captured, after_reserved, after_authorized, after_accepted, after_assigned,
  after_delivered, after_captured, CanComplete,
}
use hotdrop_orchestration.Saga.Completion.Stages.{
  reserved_stage, authorized_stage, accepted_stage, delivered_stage, captured_stage,
}

-- The rows that the participants hold of an order once it was delivered and paid.
abbrev pub held : Worlds → System → Order → Reservation
held w s o =
    record (new_reservation w.kitchen w.ttl s.kitchen.drawn
      (record { order_id = o.id; lines = line_inputs o.lines })) { status = confirmed }

abbrev asked_payment : Worlds → System → Order → Payment
asked_payment w s o =
    new_payment w.payment s.payment.drawn
      (record { order_id = o.id; customer_id = o.customer_id; amount_cents = o.total_cents })

abbrev pub paid : Worlds → System → Order → Payment
paid w s o = record (asked_payment w s o) { status = PaymentStatus.captured }

abbrev asked_delivery : Worlds → System → Order → Delivery
asked_delivery w s o =
    new_delivery w.dispatch (suc s.dispatch.drawn) o.id (w.dispatch.cuid s.dispatch.drawn)

abbrev pub brought : Worlds → System → Order → Delivery
brought w s o = record (asked_delivery w s o) { status = DeliveryStatus.delivered }

module _ (w : Worlds) (s : System) (o : Order) (reserve : OutboxMessage) (rows : List Drop)
    (c : CanComplete w s o reserve rows) where
  reserving :
      let t = (after_reserved w s o reserve).kitchen in
      IsRow (reserved w s o) t.outbox
      × (for_order o.id t.tables.reservations
          ≡ some (
              new_reservation w.kitchen w.ttl s.kitchen.drawn
                (record { order_id = o.id; lines = line_inputs o.lines })))
      × AreNew ((accept w s o).id ∷ []) t.inbox
      × (t.drawn ≡ later 2 s.kitchen.drawn)
      × IsNew reservation_key (w.kitchen.cuid (later 2 s.kitchen.drawn)) t.tables.reservations
  reserving =
      kitchen_reserves w.kitchen w.ttl s.kitchen reserve
        (record { order_id = o.id; lines = line_inputs o.lines }) rows ((accept w s o).id ∷ [])
        c.body c.at_kitchen c.no_reservation c.fits c.reservation_later c.reservation_apart

  authorizing :
      let t = (after_authorized w s o reserve).payment in
      IsRow (authorized w s o) t.outbox
      × (by_id (w.payment.cuid s.payment.drawn) t ≡ some (asked_payment w s o))
      × AreNew ((capture w s o).id ∷ []) t.inbox
      × (t.drawn ≡ later 2 s.payment.drawn)
      × IsNew payment_key (w.payment.cuid (later 2 s.payment.drawn)) t.tables.payments
  unfolding outbox_row create_outbox_message
  authorizing =
      payment_authorizes w.payment w.failure_rate w.draw s.payment w.orders (later 1 s.orders.drawn)
        (record { order_id = o.id; customer_id = o.customer_id; amount_cents = o.total_cents })
        ((capture w s o).id ∷ []) c.at_payment c.no_payment c.payment_new c.is_accepted
        c.payment_later c.payment_apart

  accepting :
      let t = (after_accepted w s o reserve).kitchen in
      IsRow (accepted w s o) t.outbox × (for_order o.id t.tables.reservations ≡ some (held w s o))
  unfolding outbox_row create_outbox_message
  accepting =
      let before = (after_reserved w s o reserve).kitchen in
      let (row, held_row) =
        kitchen_accepts w.kitchen w.ttl before w.orders (later 3 s.orders.drawn) o.id _ reserving.2
          reserving.1 in
      (
        subst
            (λ n.
              IsRow (row_of w.kitchen n saga_reply (Payload.reply_body (accepted_reply o.id)))
                (after_accepted w s o reserve).kitchen.outbox)
            reserving.3 row,
        held_row,
      )

  assigning :
      let t = (after_assigned w s o reserve).dispatch in
      IsRow (assigned w s o) t.outbox
      × (delivery_of o.id t ≡ some (asked_delivery w s o))
      × (t.drawn ≡ later 3 s.dispatch.drawn)
  unfolding outbox_row create_outbox_message
  assigning =
      dispatch_assigns w.dispatch s.dispatch w.orders (later 6 s.orders.drawn)
        (record { order_id = o.id; delivery_address = o.delivery_address }) w.courier c.at_dispatch
        c.no_delivery

  delivering :
      let t = (after_delivered w s o reserve).dispatch in
      IsRow (delivered w s o) t.outbox × (delivery_of o.id t ≡ some (brought w s o))
  delivering =
      let before = (after_assigned w s o reserve).dispatch in
      let (row, brought_row) =
        dispatch_delivers w.dispatch before o.id (asked_delivery w s o) assigning.1 refl in
      (
        subst
            (λ n.
              IsRow
                (row_of w.dispatch n (delivery_event DeliveryEvent.delivered)
                  (Payload.delivered_body (record { order_id = o.id })))
                (after_delivered w s o reserve).dispatch.outbox)
            assigning.2 row,
        brought_row,
      )

  capturing :
      let t = (after_captured w s o reserve).payment in
      IsRow (captured w s o) t.outbox
      × (by_id (w.payment.cuid s.payment.drawn) t ≡ some (paid w s o))
  unfolding outbox_row create_outbox_message
  capturing =
      let before = (after_authorized w s o reserve).payment in
      let (row, paid_row) =
        payment_captures w.payment w.failure_rate w.draw before w.orders (later 9 s.orders.drawn)
          (record { order_id = o.id; payment_id = w.payment.cuid s.payment.drawn })
          (asked_payment w s o) authorizing.2 authorizing.1 in
      (
        subst
            (λ n.
              IsRow (row_of w.payment n saga_reply (Payload.reply_body (captured_reply o.id)))
                (after_captured w s o reserve).payment.outbox)
            authorizing.3 row,
        paid_row,
      )

  to_reserved : Reach in_memory s (after_reserved w s o reserve)
  to_reserved =
      next (next here (at_kitchen w.kitchen w.ttl reserve c.asked c.reservation_new))
        (answered w.orders (reserved w s o) (inl reserving.0))

  to_authorized : Reach in_memory s (after_authorized w s o reserve)
  to_authorized =
      next
        (next to_reserved (
          at_payment w.payment w.failure_rate w.draw (authorize w s o)
            (reserved_stage w s o reserve rows c).1 c.payment_new))
        (answered w.orders (authorized w s o) (inr (inl authorizing.0)))

  to_accepted : Reach in_memory s (after_accepted w s o reserve)
  to_accepted =
      next
        (next to_authorized (
          at_kitchen w.kitchen w.ttl (accept w s o) (authorized_stage w s o reserve rows c).1 (
            subst
              (λ n.
                IsNew reservation_key (w.kitchen.cuid n)
                  (after_reserved w s o reserve).kitchen.tables.reservations)
              (sym reserving.3) reserving.4)))
        (answered w.orders (accepted w s o) (inl accepting.0))

  to_assigned : Reach in_memory s (after_assigned w s o reserve)
  to_assigned =
      next
        (next to_accepted (
          at_dispatch w.dispatch (some w.courier) (assign w s o)
            (accepted_stage w s o reserve rows c).1 c.assignment_new))
        (answered w.orders (assigned w s o) (inr (inr assigning.0)))

  to_delivered : Reach in_memory s (after_delivered w s o reserve)
  to_delivered =
      next (next to_assigned (driven w.dispatch o.id))
        (answered w.orders (delivered w s o) (inr (inr delivering.0)))

  to_captured : Reach in_memory s (after_captured w s o reserve)
  to_captured =
      next
        (next to_delivered (
          at_payment w.payment w.failure_rate w.draw (capture w s o)
            (delivered_stage w s o reserve rows c).1
            (subst
              (λ n.
                IsNew payment_key (w.payment.cuid n)
                  (after_authorized w s o reserve).payment.tables.payments)
              (sym authorizing.3) authorizing.4)))
        (answered w.orders (captured w s o) (inr (inl capturing.0)))

-- An order that was placed, with its command in the outbox, whose lines find their portions and
-- whose payment the gateway accepts, and of which the participants know nothing, can be brought to
-- its end: the four services have a run at whose end the order is COMPLETED, its reservation
-- confirmed, its payment captured and its delivery delivered, when a courier is found and the ids
-- drawn on the way are new.
pub Reach-completed :
    {db : Prisma}
    → Documented db
    → (w : Worlds) (s : System) (o : Order) (reserve : OutboxMessage) (rows : List Drop)
    → CanComplete w s o reserve rows
    → (t : System) × Reach db s t
      × (order_of o.id t.orders ≡ some (record o { status = OrderStatus.completed }))
      × (for_order o.id t.kitchen.tables.reservations ≡ some (held w s o))
      × (by_id (w.payment.cuid s.payment.drawn) t.payment ≡ some (paid w s o))
      × (delivery_of o.id t.dispatch ≡ some (brought w s o))
Reach-completed law w s o reserve rows c = (
  after_captured w s o reserve,
  subst (λ d. Reach d s (after_captured w s o reserve)) (sym (is_in_memory law))
      (to_captured w s o reserve rows c),
  (captured_stage w s o reserve rows c).order_row,
  (accepting w s o reserve rows c).1,
  (capturing w s o reserve rows c).1,
  (delivering w s o reserve rows c).1,
)
