-- ===== src/Saga/Ties/Interleaving.antt =====
-- The transactions of all four services, in any order.
use hotdrop_orchestration.Base.{List, inl, inr}
use hotdrop_orchestration.Order.{OrderStore}
use hotdrop_orchestration.Kitchen.{KitchenStore, reservation_key, reservation_order_key}
use hotdrop_orchestration.Payment.{PaymentStore, payment_key, payment_order_key}
use hotdrop_orchestration.Dispatch.{DispatchStore, assignment_key}
use hotdrop_orchestration.Prisma.{Prisma, Documented}
use hotdrop_orchestration.Messaging.{OutboxMessage}
use hotdrop_orchestration.Saga.System.{
  System, Step, Reach, here, next, IsRow, newest, older, IsAnswer, placing, cancelling, answered,
  at_kitchen, sweeping, at_payment, at_dispatch, driven,
}
use hotdrop_orchestration.Saga.Ties.Tables.{All-map, IsTable-due}
use hotdrop_orchestration.Saga.Ties.World.{
  World, world, Later, Agrees, AgreesAll, AgreesAll-later, NamesOwn-later, assignment_order_key,
}
use hotdrop_orchestration.Saga.Ties.Orders as Orders
use hotdrop_orchestration.Saga.Ties.Orders.{OrdersTied, OrdersMoved}
use hotdrop_orchestration.Saga.Ties.Kitchen as Kitchen
use hotdrop_orchestration.Saga.Ties.Kitchen.{KitchenTied, KitchenMoved}
use hotdrop_orchestration.Saga.Ties.Payments as Payments
use hotdrop_orchestration.Saga.Ties.Payments.{PaymentsTied, PaymentsMoved}
use hotdrop_orchestration.Saga.Ties.Dispatch as Dispatch
use hotdrop_orchestration.Saga.Ties.Dispatch.{DispatchTied, DispatchMoved}

-- Every message of every outbox agrees with what the services hold, every saga row names rows of its
-- own order, and every row of a participant says of its order what was agreed.
pub record IsTied (s : System) : Type 0 where
  pub orders : OrdersTied (world s) s.orders
  pub kitchen : KitchenTied (world s) s.kitchen
  pub payment : PaymentsTied (world s) s.payment
  pub dispatch : DispatchTied (world s) s.dispatch

pub row-Agrees :
    (w : World) (m : OutboxMessage) {rows : List OutboxMessage}
    → IsRow m rows
    → AgreesAll w rows
    → Agrees w m.payload
row-Agrees w m newest h = h.0
row-Agrees w m (older r) h = row-Agrees w m r h.1

answer-Agrees :
    (s : System) (m : OutboxMessage) → IsTied s → IsAnswer s m → Agrees (world s) m.payload
answer-Agrees s m h (inl r) = row-Agrees (world s) m r h.kitchen.1
answer-Agrees s m h (inr (inl r)) = row-Agrees (world s) m r h.payment.1
answer-Agrees s m h (inr (inr r)) = row-Agrees (world s) m r h.dispatch.1

-- What another service's transaction leaves of a service's agreement.
module _ (v w : World) where
  orders_stay :
      (s : OrderStore)
      → Later (Orders.with_orders v s) (Orders.with_orders w s)
      → OrdersTied v s
      → OrdersTied w s
  orders_stay s l h =
      (AgreesAll-later l s.outbox h.0, All-map s.tables.sagas (λ g x. NamesOwn-later l g x) h.1)

  kitchen_stays :
      (s : KitchenStore)
      → Later (Kitchen.with_reservations v s.tables) (Kitchen.with_reservations w s.tables)
      → KitchenTied v s
      → KitchenTied w s
  kitchen_stays s l h = (
    IsTable-due reservation_key reservation_order_key s.tables.reservations
        (λ r x. (x.0, l.agreed r.order_id x.0 x.1, x.2)) h.0,
    AgreesAll-later l s.outbox h.1,
  )

  payments_stay :
      (s : PaymentStore)
      → Later (Payments.with_payments v s.tables) (Payments.with_payments w s.tables)
      → PaymentsTied v s
      → PaymentsTied w s
  payments_stay s l h = (
    IsTable-due payment_key payment_order_key s.tables.payments
        (λ p x. (x.0, l.agreed p.order_id x.0 x.1, x.2)) h.0,
    AgreesAll-later l s.outbox h.1,
  )

  dispatch_stays :
      (s : DispatchStore)
      → Later (Dispatch.with_assignments v s.tables) (Dispatch.with_assignments w s.tables)
      → DispatchTied v s
      → DispatchTied w s
  dispatch_stays s l h = (
    IsTable-due assignment_key assignment_order_key s.tables.assignments
        (λ a x. (x.0, l.agreed a.order_id x.0 x.1)) h.0,
    AgreesAll-later l s.outbox h.1,
  )

module _ (s : System) (h : IsTied s) where
  by_orders : (t : OrderStore) → OrdersMoved (world s) s.orders t → IsTied (record s { orders = t })
  by_orders t m = record {
    orders = m.1;
    kitchen = kitchen_stays (world s) (world (record s { orders = t })) s.kitchen m.0 h.kitchen;
    payment = payments_stay (world s) (world (record s { orders = t })) s.payment m.0 h.payment;
    dispatch = dispatch_stays (world s) (world (record s { orders = t })) s.dispatch m.0 h.dispatch;
  }

  by_kitchen :
      (t : KitchenStore) → KitchenMoved (world s) s.kitchen t → IsTied (record s { kitchen = t })
  by_kitchen t m = record {
    orders = orders_stay (world s) (world (record s { kitchen = t })) s.orders m.0 h.orders;
    kitchen = m.1;
    payment = payments_stay (world s) (world (record s { kitchen = t })) s.payment m.0 h.payment;
    dispatch =
        dispatch_stays (world s) (world (record s { kitchen = t })) s.dispatch m.0 h.dispatch;
  }

  by_payment :
      (t : PaymentStore) → PaymentsMoved (world s) s.payment t → IsTied (record s { payment = t })
  by_payment t m = record {
    orders = orders_stay (world s) (world (record s { payment = t })) s.orders m.0 h.orders;
    kitchen = kitchen_stays (world s) (world (record s { payment = t })) s.kitchen m.0 h.kitchen;
    payment = m.1;
    dispatch =
        dispatch_stays (world s) (world (record s { payment = t })) s.dispatch m.0 h.dispatch;
  }

  by_dispatch :
      (t : DispatchStore)
      → DispatchMoved (world s) s.dispatch t
      → IsTied (record s { dispatch = t })
  by_dispatch t m = record {
    orders = orders_stay (world s) (world (record s { dispatch = t })) s.orders m.0 h.orders;
    kitchen = kitchen_stays (world s) (world (record s { dispatch = t })) s.kitchen m.0 h.kitchen;
    payment = payments_stay (world s) (world (record s { dispatch = t })) s.payment m.0 h.payment;
    dispatch = m.1;
  }

Step-IsTied : {db : Prisma} → Documented db → {s t : System} → Step db s t → IsTied s → IsTied t
Step-IsTied law {s = s} (placing env input new) h =
    by_orders s h _ (Orders.place_moved (world s) law env input s.orders new h.orders)
Step-IsTied law {s = s} (cancelling env id customer) h =
    by_orders s h _ (Orders.cancel_moved (world s) law env id customer s.orders h.orders)
Step-IsTied law {s = s} (answered env m row) h =
    by_orders s h _
      (Orders.heard_moved (world s) law env m s.orders (answer-Agrees s m h row) h.orders)
Step-IsTied law {s = s} (at_kitchen env ttl m row new) h = by_kitchen s h _ (
    Kitchen.heard_moved (world s) law env ttl m s.kitchen new
      (row-Agrees (world s) m row h.orders.0) h.kitchen)
Step-IsTied law {s = s} (sweeping env seen) h =
    by_kitchen s h _ (Kitchen.sweep_moved (world s) law env seen s.kitchen h.kitchen)
Step-IsTied law {s = s} (at_payment env rate draw m row new) h = by_payment s h _ (
    Payments.heard_moved (world s) law env rate draw m s.payment new
      (row-Agrees (world s) m row h.orders.0) h.payment)
Step-IsTied law {s = s} (at_dispatch env courier m row new) h = by_dispatch s h _ (
    Dispatch.heard_moved (world s) law env courier m s.dispatch new
      (row-Agrees (world s) m row h.orders.0) h.dispatch)
Step-IsTied law {s = s} (driven env order_id) h =
    by_dispatch s h _ (Dispatch.driven_moved (world s) law env order_id s.dispatch h.dispatch)

-- However customers' requests, deliveries of messages (late, repeated, in any order), delivery timers
-- and sweeps of the four services interleave, where every id that cuid() gives is new to its table,
-- from a system of which the following holds it holds again. Every command and every event of an order
-- that carries its customer, address, total or lines carries what the order service holds of that
-- order; every reservation, payment and assignment that a command, a reply or a saga row names is
-- there and is of the order of that message or row; and every reservation, payment and assignment is
-- of a known order, the reservation with the order's lines and the payment with its total.
pub Reach-IsTied :
    {db : Prisma} → Documented db → {s t : System} → Reach db s t → IsTied s → IsTied t
Reach-IsTied law here h = h
Reach-IsTied law (next r step) h = Step-IsTied law step (Reach-IsTied law r h)
