-- ===== src/Gateway/Tracking.antt =====
-- tracking/tracking.gateway.ts and tracking/status.consumer.ts: a socket joins the room of an order,
-- and every status change of the order is sent to the room. The socket server (socket.io) is a
-- parameter. Sockets that disconnect are not modelled.
pub mod Rooms
use hotdrop_orchestration.Base.{
  Key, ◌≡◌, Bool, true, false, ◌&&◌, ◌||◌, List, [], map, is_some, first, ◌==◌,
}
use hotdrop_orchestration.Contracts.{OrderStatus, OrderStatusChangedEvent}

-- `order:${orderId}`
pub data Room : Type 0 where
  order_room : Key → Room

-- The rooms and the sockets in them.
pub record SocketServer (R : Type 0) : Type 0 where
  pub join : Key → Room → R → R
  pub sockets_in : Room → R → List Key

abbrev pub among : Key → List Key → Bool
among socket sockets = is_some (first (λ s. s == socket) sockets)

abbrev pub same_room : Room → Room → Bool
same_room (order_room a) (order_room b) = a == b

-- The documented behaviour: a socket is in a room from when it joins it, and joining leaves the other
-- sockets and rooms alone.
pub record JoinsRooms {R : Type 0} (server : SocketServer R) : Type 0 where
  pub join_lem :
      (socket other : Key) (room target : Room) (r : R)
      → among other (server.sockets_in target (server.join socket room r))
        ≡ (((socket == other) && same_room room target) || among other (server.sockets_in target r))

-- The body of a `status` message.
pub record StatusPush : Type 0 where
  pub order_id : Key
  pub status : OrderStatus

module _ {R : Type 0} (server : SocketServer R) where
  -- track: the rooms after it, and the answer to the client.
  unfoldable pub track : Key → Key → R → Key × R
  track client order_id r = (order_id, server.join client (order_room order_id) r)

  -- emitStatus: the messages sent, each with its socket.
  unfoldable pub emit_status : OrderStatusChangedEvent → R → List (Key × StatusPush)
  emit_status event r =
      map (λ socket. (socket, record { order_id = event.order_id; status = event.status }))
        (server.sockets_in (order_room event.order_id) r)

  -- StatusConsumer.onStatusChanged: what is sent, and that the message is acknowledged.
  unfoldable pub on_status_changed : OrderStatusChangedEvent → R → List (Key × StatusPush) × Bool
  unfolding emit_status
  on_status_changed event r = (emit_status event r, true)
