-- ===== src/Gateway/Tracking/Rooms.antt =====
-- Who is sent the status changes of an order.
use hotdrop_orchestration.Base.{
  Key, ◌≡◌, refl, ◌∙◌, Bool, true, ◌&&◌, ◌||◌, List, [], ◌∷◌, map, keep, All, is_some, first, ◌==◌,
  arith, Bool-cases, inl, inr,
}
use hotdrop_orchestration.Contracts.{OrderStatusChangedEvent}
use hotdrop_orchestration.Gateway.Tracking.{
  Room, order_room, SocketServer, JoinsRooms, among, same_room, StatusPush, track, emit_status,
  on_status_changed,
}

-- A server that keeps every join, for runs.
abbrev pub joins : SocketServer (List (Key × Room))
joins = record {
  join = λ socket room r. (socket, room) ∷ r;
  sockets_in = λ room r. map (λ j. j.0) (keep (λ j. same_room j.1 room) r);
}

pub joins-JoinsRooms : JoinsRooms joins
joins-JoinsRooms = record {
  join_lem = λ socket other room target r. elim (Bool-cases (same_room room target)) [
    | inl e ↦ rw e (ground arith)
    | inr e ↦ rw e (ground arith)
  ];
}

module _ {R : Type 0} (server : SocketServer R) where
  -- The rooms after calls of track, the last call first.
  abbrev pub tracked : List (Key × Key) → R → R
  tracked [] r = r
  tracked ((client, order_id) ∷ calls) r = (track server client order_id (tracked calls r)).1

  -- A client has asked to track an order.
  abbrev pub asked : Key → Key → List (Key × Key) → Bool
  asked client order_id calls = is_some (first (λ c. (c.0 == client) && (c.1 == order_id)) calls)

  sockets-tracked :
      JoinsRooms server
      → (client order_id : Key) (calls : List (Key × Key)) (r : R)
      → among client (server.sockets_in (order_room order_id) (tracked calls r))
        ≡ (asked client order_id calls || among client (server.sockets_in (order_room order_id) r))
  unfolding track
  sockets-tracked law client order_id [] r = refl
  sockets-tracked law client order_id ((c, o) ∷ calls) r =
      rw
        (
          law.join_lem c client (order_room o) (order_room order_id) (tracked calls r),
          sockets-tracked law client order_id calls r,
        )
        (ground arith)

  pushes-among :
      (event : OrderStatusChangedEvent) (client : Key) (sockets : List Key)
      → is_some (
          first
            (λ (p : Key × StatusPush). p.0 == client)
            (map
              (λ socket. (socket, record { order_id = event.order_id; status = event.status }))
              sockets))
        ≡ among client sockets
  pushes-among event client [] = refl
  pushes-among event client (s ∷ sockets) = ground (arith, pushes-among event client sockets)

  pushes_say :
      (event : OrderStatusChangedEvent) (sockets : List Key)
      → All
          (λ (p : Key × StatusPush).
            p.1 ≡ record { order_id = event.order_id; status = event.status })
          (map
            (λ socket. (socket, record { order_id = event.order_id; status = event.status }))
            sockets)
  pushes_say event [] = tt
  pushes_say event (s ∷ sockets) = (refl, pushes_say event sockets)

-- After any calls of track, a status change is sent to a client exactly where the client has asked to
-- track this order or was in its room before; every message that is sent has the order and the status
-- of the change, and the change is acknowledged.
pub on_status_changed-tracked :
    {R : Type 0} (server : SocketServer R)
    → JoinsRooms server
    → (calls : List (Key × Key)) (r : R) (event : OrderStatusChangedEvent) (client : Key)
    → let (pushes, is_acked) = on_status_changed server event (tracked server calls r) in
      (is_some (first (λ (p : Key × StatusPush). p.0 == client) pushes) ≡ (
        asked server client event.order_id calls
        || among client (server.sockets_in (order_room event.order_id) r)))
      × All
          (λ (p : Key × StatusPush).
            p.1 ≡ record { order_id = event.order_id; status = event.status })
          pushes
      × (is_acked ≡ true)
unfolding on_status_changed emit_status
on_status_changed-tracked server law calls r event client =
    let sockets = server.sockets_in (order_room event.order_id) (tracked server calls r) in
    (
      pushes-among server event client sockets
          ∙ sockets-tracked server law client event.order_id calls r,
      pushes_say server event sockets,
      refl,
    )
