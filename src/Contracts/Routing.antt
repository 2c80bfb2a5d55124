-- ===== src/Contracts/Routing.antt =====
-- packages/contracts/src: the routing keys of the three planes (saga commands, saga replies, domain
-- events), which are also the message patterns of the consumers, and the durable queues.
use hotdrop_orchestration.Base.{String}

pub data SagaCommand : Type 0 where
  reserve_portions release_portions accept_order : SagaCommand
  authorize_payment capture_payment void_payment refund_payment : SagaCommand
  assign_courier unassign_courier : SagaCommand

unfoldable pub command_key : SagaCommand → String
command_key SagaCommand.reserve_portions = "kitchen.cmd.reserve_portions"
command_key SagaCommand.release_portions = "kitchen.cmd.release_portions"
command_key SagaCommand.accept_order = "kitchen.cmd.accept_order"
command_key SagaCommand.authorize_payment = "payment.cmd.authorize"
command_key SagaCommand.capture_payment = "payment.cmd.capture"
command_key SagaCommand.void_payment = "payment.cmd.void"
command_key SagaCommand.refund_payment = "payment.cmd.refund"
command_key SagaCommand.assign_courier = "dispatch.cmd.assign_courier"
command_key SagaCommand.unassign_courier = "dispatch.cmd.unassign_courier"

pub data OrderEvent : Type 0 where
  confirmed completed cancelled rejected status_changed : OrderEvent

unfoldable pub order_event_key : OrderEvent → String
order_event_key confirmed = "event.order.confirmed"
order_event_key completed = "event.order.completed"
order_event_key cancelled = "event.order.cancelled"
order_event_key rejected = "event.order.rejected"
order_event_key status_changed = "event.order.status_changed"

pub data DeliveryEvent : Type 0 where
  delivered : DeliveryEvent

unfoldable pub delivery_event_key : DeliveryEvent → String
delivery_event_key delivered = "event.delivery.delivered"

abbrev pub saga_reply_key : String
saga_reply_key = "saga.reply"

abbrev pub support_ticket_created_key : String
support_ticket_created_key = "event.support.ticket_created"

abbrev pub hotdrop_exchange : String
hotdrop_exchange = "hotdrop"

-- The `type` column of an outbox row: a routing key of one of the planes.
pub data MessageType : Type 0 where
  command : SagaCommand → MessageType
  saga_reply : MessageType
  order_event : OrderEvent → MessageType
  delivery_event : DeliveryEvent → MessageType
  support_ticket_created : MessageType

unfoldable pub routing_key : MessageType → String
unfolding command_key order_event_key delivery_event_key
routing_key (command c) = command_key c
routing_key saga_reply = saga_reply_key
routing_key (order_event e) = order_event_key e
routing_key (delivery_event e) = delivery_event_key e
routing_key support_ticket_created = support_ticket_created_key

pub data Queue : Type 0 where
  order_saga kitchen_commands payment_commands dispatch_commands : Queue
  notifications gateway_tracking : Queue

unfoldable pub queue_name : Queue → String
queue_name order_saga = "order.saga"
queue_name kitchen_commands = "kitchen.commands"
queue_name payment_commands = "payment.commands"
queue_name dispatch_commands = "dispatch.commands"
queue_name notifications = "notifications"
queue_name gateway_tracking = "gateway.tracking"
