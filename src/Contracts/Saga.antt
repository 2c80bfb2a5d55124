-- ===== src/Contracts/Saga.antt =====
-- packages/contracts/src/saga and events: what the messages carry.
use hotdrop_orchestration.Base.{Key, ℕ, String, Option, List}
use hotdrop_orchestration.Contracts.Enums.{OrderStatus}

pub record OrderLineInput : Type 0 where
  pub drop_id : Key
  pub qty : ℕ

pub record ReservePortionsCommand : Type 0 where
  pub order_id : Key
  pub lines : List OrderLineInput

pub record ReleasePortionsCommand : Type 0 where
  pub order_id : Key
  pub reservation_id : Key

pub record AcceptOrderCommand : Type 0 where
  pub order_id : Key

pub record AuthorizePaymentCommand : Type 0 where
  pub order_id : Key
  pub customer_id : Key
  pub amount_cents : ℕ

-- CapturePayment, VoidPayment and RefundPayment have this one shape.
pub record PaymentCommand : Type 0 where
  pub order_id : Key
  pub payment_id : Key

pub record AssignCourierCommand : Type 0 where
  pub order_id : Key
  pub delivery_address : String

pub record UnassignCourierCommand : Type 0 where
  pub order_id : Key
  pub assignment_id : Key

pub data SagaStep : Type 0 where
  reserve_portions authorize_payment accept_order assign_courier capture_payment : SagaStep

pub data ReplyStatus : Type 0 where
  ok_status failed_status : ReplyStatus

-- `data?: T` at run time: an object in which each of the step results' fields may be present.
pub record ReplyData : Type 0 where
  pub reservation_id : Option Key
  pub payment_id : Option Key
  pub assignment_id : Option Key
  pub courier_id : Option String

pub record SagaReply : Type 0 where
  pub order_id : Key
  pub step : SagaStep
  pub status : ReplyStatus
  pub reason : Option String
  pub result : Option ReplyData

-- OrderConfirmedEvent and OrderCompletedEvent have this shape.
pub record OrderCustomerEvent : Type 0 where
  pub order_id : Key
  pub customer_id : Key

pub record OrderStatusChangedEvent : Type 0 where
  pub order_id : Key
  pub customer_id : Key
  pub status : OrderStatus

-- OrderCancelledEvent and OrderRejectedEvent have this shape.
pub record OrderReasonEvent : Type 0 where
  pub order_id : Key
  pub customer_id : Key
  pub reason : String

pub record DeliveryDeliveredEvent : Type 0 where
  pub order_id : Key

pub record SupportTicketCreatedEvent : Type 0 where
  pub ticket_id : Key
  pub customer_id : Key
  pub subject : String

-- The payload column holds one of the message bodies above.
pub data Payload : Type 0 where
  reserve_body : ReservePortionsCommand → Payload
  release_body : ReleasePortionsCommand → Payload
  accept_body : AcceptOrderCommand → Payload
  authorize_body : AuthorizePaymentCommand → Payload
  payment_body : PaymentCommand → Payload
  assign_body : AssignCourierCommand → Payload
  unassign_body : UnassignCourierCommand → Payload
  reply_body : SagaReply → Payload
  customer_body : OrderCustomerEvent → Payload
  status_body : OrderStatusChangedEvent → Payload
  reason_body : OrderReasonEvent → Payload
  delivered_body : DeliveryDeliveredEvent → Payload
  ticket_body : SupportTicketCreatedEvent → Payload
