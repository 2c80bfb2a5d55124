-- ===== src/Order.antt =====
-- apps/order-service: the order aggregate and the persisted saga state (prisma/schema), and the
-- names of the parts below: the orchestrator, the order service and its edges.
pub mod Orchestrator
pub mod Service
pub mod Http
pub mod Consumer
mod Examples
use hotdrop_orchestration.Base.{Key, ℕ, String, Bool, Option, List}
use hotdrop_orchestration.Contracts.{OrderStatus}
use hotdrop_orchestration.Messaging.{Store}

pub record OrderLine : Type 0 where
  pub drop_id : Key
  pub qty : ℕ
  pub unit_price_cents : ℕ

pub record Order : Type 0 where
  pub id : Key
  pub customer_id : Key
  pub status : OrderStatus
  pub delivery_address : String
  pub total_cents : ℕ
  pub created_at : ℕ
  pub lines : List OrderLine

pub record SagaInstance : Type 0 where
  pub order_id : Key
  pub step : String
  pub compensating : Bool
  pub reservation_id : Option Key
  pub payment_id : Option Key
  pub assignment_id : Option Key
  pub last_error : Option String

pub record OrderTables : Type 0 where
  pub orders : List Order
  pub sagas : List SagaInstance

abbrev pub OrderStore : Type 0
OrderStore = Store OrderTables

-- The primary keys of the two tables.
abbrev pub order_key : Order → Key
order_key o = o.id

abbrev pub saga_key : SagaInstance → Key
saga_key g = g.order_id
