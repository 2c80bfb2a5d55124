-- ===== src/Notifications.antt =====
-- apps/notifications-service/src/notifications/notifications.consumer.ts: each event becomes a line in
-- the log, under the trace of its message, and is acknowledged. A line carries the traceparent that it is written
-- under; the spans (telemetry's runWithTraceparent) are those of Telemetry, and are left out here.
use Prim.Native.String.{◌++◌ as ◌+++◌}
use hotdrop_orchestration.Base.{Key, String, Bool, true, Option}
use hotdrop_orchestration.Contracts.{
  OrderCustomerEvent, OrderReasonEvent, SupportTicketCreatedEvent,
}

-- MessageEnvelope<T>
pub record Envelope (T : Type 0) : Type 0 where
  pub message_id : Key
  pub body : T
  pub traceparent : Option String

-- A message of the notifications queue, by the event pattern that takes it.
pub data Notice : Type 0 where
  confirmed completed : Envelope OrderCustomerEvent → Notice
  cancelled rejected : Envelope OrderReasonEvent → Notice
  ticket : Envelope SupportTicketCreatedEvent → Notice

pub record LogLine : Type 0 where
  pub traceparent : Option String
  pub label : String
  pub message : String

unfoldable pub notify : {T : Type 0} → Envelope T → String → String → LogLine
notify env label message = record {
  traceparent = env.traceparent;
  label = label;
  message = message;
}

-- The handlers: the line that is logged, and that the message is acknowledged. `show` is the text of
-- an id.
module _ (show : Key → String) where
  unfoldable pub handle : Notice → LogLine × Bool
  unfolding notify
  handle (Notice.confirmed env) = (
    notify env "notify order_confirmed" (
        "order "
        +++ (show (env.body.order_id)
            +++ (": confirmed → notify customer " +++ show (env.body.customer_id)))),
    true,
  )
  handle (Notice.completed env) = (
    notify env "notify order_completed" (
        "order "
        +++ (show (env.body.order_id)
            +++ (": delivered → notify customer " +++ show (env.body.customer_id)))),
    true,
  )
  handle (Notice.cancelled env) = (
    notify env "notify order_cancelled" (
        "order "
        +++ (show (env.body.order_id)
            +++ (": cancelled ("
                +++ (env.body.reason +++ (") → notify " +++ show (env.body.customer_id)))))),
    true,
  )
  handle (Notice.rejected env) = (
    notify env "notify order_rejected" (
        "order "
        +++ (show (env.body.order_id)
            +++ (": rejected ("
                +++ (env.body.reason +++ (") → notify " +++ show (env.body.customer_id)))))),
    true,
  )
  handle (Notice.ticket env) = (
    notify env "notify support_ticket" (
        "support ticket "
        +++ (show (env.body.ticket_id)
            +++ (" from "
                +++ (show (env.body.customer_id) +++ (": \"" +++ (env.body.subject +++ "\"")))))),
    true,
  )
