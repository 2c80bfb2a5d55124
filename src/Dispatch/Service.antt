-- ===== src/Dispatch/Service.antt =====
-- apps/dispatch-service/src/dispatch/dispatch.service.ts. The latency is not modelled. The draws of
-- Math.random(), one for each offer, and the decline rate are numbers on one scale; the courier's
-- name is made from the first eight characters of a random uuid, an argument.
use hotdrop_orchestration.Base.{
  Key, ℕ, zero, suc, String, not, Option, none, some, List, [], ◌∷◌, leb, if◌then◌else◌,
}
use hotdrop_orchestration.Contracts.{
  CourierAssignmentStatus, DeliveryStatus, SagaReply, SagaStep, AssignCourierCommand,
  UnassignCourierCommand, Payload, DeliveryEvent, delivery_event, ok_status, failed_status,
}
use hotdrop_orchestration.Result.{Result, ok, err, Tx, step_failure, pure, throw, done, ◌>>=◌, ◌>>◌}
use hotdrop_orchestration.Prisma.{Prisma}
use hotdrop_orchestration.Messaging.{Env, write_outbox}
use hotdrop_orchestration.Participant.{Work, consume}
use hotdrop_orchestration.Dispatch.{
  CourierAssignment, Delivery, DispatchTables, DispatchStore, assignment_key, delivery_order_key,
  is_delivered, is_cancelled_assignment,
}

abbrev pub max_courier_offers : ℕ
max_courier_offers = 3

abbrev pub no_courier_reply : Key → SagaReply
no_courier_reply order_id = record {
  order_id = order_id;
  step = SagaStep.assign_courier;
  status = failed_status;
  reason = some "NO_COURIER";
  result = none;
}

abbrev pub assigned_reply : Key → Key → String → SagaReply
assigned_reply order_id assignment_id courier_id = record {
  order_id = order_id;
  step = SagaStep.assign_courier;
  status = ok_status;
  reason = none;
  result = some (record {
    reservation_id = none;
    payment_id = none;
    assignment_id = some assignment_id;
    courier_id = some courier_id;
  });
}

-- The loop of matchCourier, by the offers left; `draw n` is Math.random() and `courier n` the name
-- made at the n-th offer.
unfoldable pub match_from : ℕ → (ℕ → ℕ) → (ℕ → String) → ℕ → ℕ → Option String
match_from decline_rate draw courier zero offer = none
match_from decline_rate draw courier (suc left) offer =
    let rest = match_from decline_rate draw courier left (suc offer) in
    if leb decline_rate (draw offer) then some (courier offer) else rest

unfoldable pub match_courier : ℕ → (ℕ → ℕ) → (ℕ → String) → Option String
unfolding match_from
match_courier decline_rate draw courier = match_from decline_rate draw courier max_courier_offers 0

abbrev pub with_assignments : List CourierAssignment → DispatchStore → DispatchStore
with_assignments rows s = record s { tables = record (s.tables) { assignments = rows } }

abbrev pub with_deliveries : List Delivery → DispatchStore → DispatchStore
with_deliveries rows s = record s { tables = record (s.tables) { deliveries = rows } }

-- The end of assignCourier: where a courier was found, the timer of `complete_delivery` is started
-- for the order, also when the message was known.
unfoldable pub start_timer :
    Key → Option String → Result (Unit {0}) × DispatchStore → Result (Option Key) × DispatchStore
start_timer order_id courier (err e, s) = (err e, s)
start_timer order_id none (ok _, s) = (ok none, s)
start_timer order_id (some _) (ok _, s) = (ok (some order_id), s)

module _ (db : Prisma) (env : Env) where
  unfoldable pub create_assignment : Key → String → Tx DispatchStore Key
  create_assignment order_id courier_id s =
      let row : CourierAssignment = record {
        id = env.cuid s.drawn;
        order_id = order_id;
        courier_id = courier_id;
        status = CourierAssignmentStatus.accepted;
      } in
      elim (db.create [] row s.tables.assignments) [
        | ok rows ↦ ok (row.id, record (with_assignments rows s) { drawn = suc s.drawn })
        | err e ↦ err e
      ]

  unfoldable pub create_delivery : Key → Key → Tx DispatchStore (Unit {0})
  create_delivery order_id assignment_id s =
      let row : Delivery = record {
        id = env.cuid s.drawn;
        order_id = order_id;
        assignment_id = assignment_id;
        status = DeliveryStatus.assigned;
      } in
      elim (db.create (delivery_order_key ∷ []) row s.tables.deliveries) [
        | ok rows ↦ ok (tt, record (with_deliveries rows s) { drawn = suc s.drawn })
        | err e ↦ err e
      ]

  unfoldable pub assign_work : AssignCourierCommand → Option String → Work DispatchTables
  assign_work cmd none = throw (step_failure (no_courier_reply cmd.order_id))
  assign_work cmd (some courier_id) = do
    assignment_id ← create_assignment cmd.order_id courier_id
    create_delivery cmd.order_id assignment_id
    pure (some (assigned_reply cmd.order_id assignment_id courier_id))

  -- assignCourier; `courier` is what matchCourier found. The result names the order whose delivery
  -- timer was started.
  unfoldable pub assign_courier :
      Key
      → AssignCourierCommand
      → Option String
      → DispatchStore
      → Result (Option Key) × DispatchStore
  assign_courier message_id cmd courier s =
      start_timer cmd.order_id courier (consume db env message_id (assign_work cmd courier) s)

  -- tx.delivery.update({ where: { orderId }, data: { status: DELIVERED } })
  unfoldable pub set_delivered : Key → Tx DispatchStore (Unit {0})
  set_delivered order_id s =
      elim (db.update delivery_order_key order_id
        (λ d. some (record d { status = DeliveryStatus.delivered })) s.tables.deliveries) [
          | ok rows ↦ ok (tt, with_deliveries rows s)
          | err e ↦ err e
        ]

  unfoldable pub complete_found : Key → Option Delivery → Tx DispatchStore (Unit {0})
  complete_found order_id none = done
  complete_found order_id (some delivery) =
      if is_delivered delivery.status
      then done
      else (set_delivered order_id
          >> write_outbox db env (delivery_event DeliveryEvent.delivered)
              (Payload.delivered_body (record { order_id = order_id })))

  -- completeDelivery: an error is logged and does not go on.
  unfoldable pub complete_delivery : Key → DispatchStore → DispatchStore
  complete_delivery order_id s =
      (db.transaction
        (λ t.
          complete_found order_id (db.find_unique delivery_order_key order_id t.tables.deliveries)
            t)
        s).1

  unfoldable pub unassign_found :
      UnassignCourierCommand → Option CourierAssignment → Work DispatchTables
  unassign_found cmd none = pure none
  unassign_found cmd (some a) =
      if not (is_cancelled_assignment a.status)
      then ((λ s.
          elim (db.update assignment_key cmd.assignment_id
            (λ x. some (record x { status = CourierAssignmentStatus.cancelled }))
            s.tables.assignments) [ ok rows ↦ ok (none, with_assignments rows s) | err e ↦ err e ]))
      else pure none

  unfoldable pub unassign_courier :
      Key → UnassignCourierCommand → DispatchStore → Result (Unit {0}) × DispatchStore
  unassign_courier message_id cmd = consume db env message_id λ s.
      unassign_found cmd (db.find_unique assignment_key cmd.assignment_id s.tables.assignments) s
