-- ===== src/Dispatch.antt =====
-- apps/dispatch-service: courier assignments and deliveries (prisma/schema, dispatch.service.ts).
pub mod Service
pub mod Offers
pub mod Assigning
pub mod Commands
pub mod Announced
pub mod Consumer
mod Examples
use hotdrop_orchestration.Base.{Key, String, List, Bool, true, false}
use hotdrop_orchestration.Contracts.{CourierAssignmentStatus, DeliveryStatus}
use hotdrop_orchestration.Messaging.{Store}

pub record CourierAssignment : Type 0 where
  pub id : Key
  pub order_id : Key
  pub courier_id : String
  pub status : CourierAssignmentStatus

pub record Delivery : Type 0 where
  pub id : Key
  pub order_id : Key
  pub assignment_id : Key
  pub status : DeliveryStatus

pub record DispatchTables : Type 0 where
  pub assignments : List CourierAssignment
  pub deliveries : List Delivery

abbrev pub DispatchStore : Type 0
DispatchStore = Store DispatchTables

abbrev pub assignment_key : CourierAssignment → Key
assignment_key a = a.id

abbrev pub delivery_order_key : Delivery → Key
delivery_order_key d = d.order_id

unfoldable pub is_delivered : DeliveryStatus → Bool
is_delivered DeliveryStatus.delivered = true
is_delivered _ = false

unfoldable pub is_cancelled_assignment : CourierAssignmentStatus → Bool
is_cancelled_assignment CourierAssignmentStatus.cancelled = true
is_cancelled_assignment _ = false
