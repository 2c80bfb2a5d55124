-- ===== src/Saga/System.antt =====
-- The four services of the saga together. The relay of a service publishes a row of its outbox before
-- it marks the row, and the broker delivers at least once, so from the time it is written a row may
-- reach its consumer at any time, in any order, and more than once.
use hotdrop_orchestration.Base.{
  Key, ℕ, String, Option, none, some, List, ◌∷◌, ◌≡◌, ◌⊎◌, first, ◌==◌,
}
use hotdrop_orchestration.Prisma.{Prisma}
use hotdrop_orchestration.Messaging.{Env, OutboxMessage}
use hotdrop_orchestration.Order.{Order, OrderStore}
use hotdrop_orchestration.Order.Orchestrator.{cancel_order}
use hotdrop_orchestration.Order.Service.{PlaceOrderInput, place_order}
use hotdrop_orchestration.Kitchen.{Reservation, KitchenStore}
use hotdrop_orchestration.Kitchen.Sweeper.{sweep_one}
use hotdrop_orchestration.Payment.{Payment, PaymentStore}
use hotdrop_orchestration.Dispatch.{CourierAssignment, DispatchStore}
use hotdrop_orchestration.Dispatch.Service.{complete_delivery}
use hotdrop_orchestration.Saga.{kitchen_hears, orders_hear, payment_hears, dispatch_hears}

pub record System : Type 0 where
  pub orders : OrderStore
  pub kitchen : KitchenStore
  pub payment : PaymentStore
  pub dispatch : DispatchStore

-- A row of the outbox.
pub data IsRow (m : OutboxMessage) : List OutboxMessage → Type 0 where
  newest : {ms : List OutboxMessage} → IsRow m (m ∷ ms)
  older : {n : OutboxMessage} {ms : List OutboxMessage} → IsRow m ms → IsRow m (n ∷ ms)

-- A row that the order service may hear of: one of a participant's outbox.
abbrev pub IsAnswer : System → OutboxMessage → Type 0
IsAnswer s m = IsRow m s.kitchen.outbox ⊎ (IsRow m s.payment.outbox ⊎ IsRow m s.dispatch.outbox)

-- cuid() has not given the id of a row of the table.
abbrev pub IsNew : {A : Type 0} → (A → Key) → Key → List A → Type 0
IsNew key k rows = first (λ x. key x == k) rows ≡ none

-- One transaction of one service: a customer's request, a message that is delivered, the delivery
-- timer, or a round of the sweep. What cuid() gives is new to the tables.
pub data Step (db : Prisma) (s : System) : System → Type 0 where
  placing :
      (env : Env) (input : PlaceOrderInput)
      → IsNew (λ (o : Order). o.id) (env.cuid s.orders.drawn) s.orders.tables.orders
      → Step db s (record s { orders = (place_order db env input s.orders).1 })
  cancelling :
      (env : Env) (id customer : Key)
      → Step db s (record s { orders = (cancel_order db env id customer s.orders).1 })
  answered :
      (env : Env) (m : OutboxMessage)
      → IsAnswer s m
      → Step db s (record s { orders = orders_hear db env (some m) s.orders })
  at_kitchen :
      (env : Env) (ttl : ℕ) (m : OutboxMessage)
      → IsRow m s.orders.outbox
      → IsNew (λ (r : Reservation). r.id) (env.cuid s.kitchen.drawn) s.kitchen.tables.reservations
      → Step db s (record s { kitchen = kitchen_hears db env ttl (some m) s.kitchen })
  sweeping :
      (env : Env) (seen : Reservation)
      → Step db s (record s { kitchen = (sweep_one db env seen s.kitchen).1 })
  at_payment :
      (env : Env) (failure_rate draw : ℕ) (m : OutboxMessage)
      → IsRow m s.orders.outbox
      → IsNew (λ (p : Payment). p.id) (env.cuid s.payment.drawn) s.payment.tables.payments
      → Step db s (record s { payment = payment_hears db env failure_rate draw (some m) s.payment })
  at_dispatch :
      (env : Env) (courier : Option String) (m : OutboxMessage)
      → IsRow m s.orders.outbox
      → IsNew
          (λ (a : CourierAssignment). a.id)
          (env.cuid s.dispatch.drawn)
          s.dispatch.tables.assignments
      → Step db s (record s { dispatch = dispatch_hears db env courier (some m) s.dispatch })
  driven :
      (env : Env) (order_id : Key)
      → Step db s (record s { dispatch = complete_delivery db env order_id s.dispatch })

pub data Reach (db : Prisma) (s : System) : System → Type 0 where
  here : Reach db s s
  next : {t u : System} → Reach db s t → Step db t u → Reach db s u
