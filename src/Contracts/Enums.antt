-- ===== src/Contracts/Enums.antt =====
-- packages/contracts/src/enums.ts, and the tests of status values that the services make.
use Prim.Native.String.{String}

pub data OrderStatus : Type 0 where
  placed portions_reserved payment_authorized accepted preparing ready : OrderStatus
  courier_assigned picked_up delivered completed cancelled rejected : OrderStatus

pub data DropStatus : Type 0 where
  draft scheduled live sold_out closed : DropStatus

pub data PaymentStatus : Type 0 where
  authorized captured voided refunded failed : PaymentStatus

pub data CourierAssignmentStatus : Type 0 where
  offered accepted declined cancelled : CourierAssignmentStatus

pub data DeliveryStatus : Type 0 where
  assigned picked_up delivered : DeliveryStatus

-- The values of the enum DropStatus.
unfoldable pub drop_status_text : DropStatus → String
drop_status_text DropStatus.draft = "DRAFT"
drop_status_text DropStatus.scheduled = "SCHEDULED"
drop_status_text DropStatus.live = "LIVE"
drop_status_text DropStatus.sold_out = "SOLD_OUT"
drop_status_text DropStatus.closed = "CLOSED"
