-- ===== src/Dispatch/Commands.antt =====
-- The delivery timer of the dispatch service and UnassignCourier as changes of its tables: the
-- outcome on every branch.
use hotdrop_orchestration.Base.{
  Key, suc, ◌≡◌, refl, ap, Option, none, some, [], ◌∷◌, ◌++◌, arith, ◌==◌, if◌then◌else◌,
  modify_first, Bool-cases, inl, inr, modify_first-const,
}
use hotdrop_orchestration.Contracts.{
  CourierAssignmentStatus, DeliveryStatus, UnassignCourierCommand, Payload, DeliveryEvent,
  delivery_event,
}
use hotdrop_orchestration.Result.{ok, >>-ok}
use hotdrop_orchestration.Prisma.{Prisma, Documented, in_memory, is_in_memory}
use hotdrop_orchestration.Prisma.Reference.{rolled, rollback}
use hotdrop_orchestration.Messaging.{Env, create_outbox_message, outbox_row, write_outbox}
use hotdrop_orchestration.Participant.Consume.{received, settled, consume_lem, KeepsInbox}
use hotdrop_orchestration.Dispatch.{
  CourierAssignment, Delivery, DispatchStore, is_delivered, is_cancelled_assignment,
}
use hotdrop_orchestration.Dispatch.Service.{
  with_assignments, with_deliveries, set_delivered, complete_found, complete_delivery,
  unassign_found, unassign_courier,
}
use hotdrop_orchestration.Dispatch.Assigning.{Outcome, delivery_of, assignment_of}

-- The delivery becomes DELIVERED and the event goes to the outbox.
abbrev pub delivered : Env → Key → DispatchStore → DispatchStore
delivered env order_id s = record s {
  tables = record (s.tables) {
    deliveries =
        modify_first (λ d. d.order_id == order_id)
          (λ d. record d { status = DeliveryStatus.delivered }) s.tables.deliveries;
  };
  outbox =
      s.outbox
      ++ outbox_row env (
          create_outbox_message env s.drawn (delivery_event DeliveryEvent.delivered)
            (Payload.delivered_body (record { order_id = order_id })))
        ∷ [];
  drawn = suc s.drawn;
}

-- The timer, from the delivery of its order.
abbrev pub complete_outcome : Env → Key → Option Delivery → DispatchStore → DispatchStore
complete_outcome env order_id none s = s
complete_outcome env order_id (some d) s =
    if is_delivered d.status then s else delivered env order_id s

set_delivered_lem :
    (env : Env) (order_id : Key) (s : DispatchStore) (d : Delivery)
    → delivery_of order_id s ≡ some d
    → set_delivered in_memory env order_id s
      ≡ ok (
        tt,
        with_deliveries
            (modify_first
              (λ x. x.order_id == order_id)
              (λ x. record x { status = DeliveryStatus.delivered })
              s.tables.deliveries)
            s,
      )
unfolding set_delivered
set_delivered_lem env order_id s d e = ground (
  arith,
  modify_first-const (λ x. x.order_id == order_id)
      (λ x. record x { status = DeliveryStatus.delivered }) s.tables.deliveries d e,
)

complete_cases :
    (env : Env) (order_id : Key) (s : DispatchStore) (found : Option Delivery)
    → delivery_of order_id s ≡ found
    → (rollback (complete_found in_memory env order_id found) s).1
      ≡ complete_outcome env order_id found s
unfolding complete_found write_outbox
complete_cases env order_id s none e = refl
complete_cases env order_id s (some d) e = elim (Bool-cases (is_delivered d.status)) [
  | inl over ↦ rw over
  | inr open_one ↦ rw open_one (
      ap (λ o. (rolled o s).1)
        (>>-ok (set_delivered in_memory env order_id)
          (write_outbox in_memory env (delivery_event DeliveryEvent.delivered)
            (Payload.delivered_body (record { order_id = order_id })))
          s (set_delivered_lem env order_id s d e)))
]

-- completeDelivery marks the order's delivery DELIVERED and adds the delivered event to the outbox,
-- in one step; where there is no delivery, or it is DELIVERED, it changes nothing.
pub complete_delivery-settled :
    (db : Prisma)
    → Documented db
    → (env : Env) (order_id : Key) (s : DispatchStore)
    → complete_delivery db env order_id s ≡ complete_outcome env order_id (delivery_of order_id s) s
unfolding complete_delivery
complete_delivery-settled db law env order_id s =
    rw (is_in_memory law) (complete_cases env order_id s _ refl)

-- UnassignCourier, from the assignment that was found.
abbrev pub unassign_outcome :
    UnassignCourierCommand → Option CourierAssignment → DispatchStore → Outcome
unassign_outcome cmd none s = ok (none, s)
unassign_outcome cmd (some a) s =
    if is_cancelled_assignment a.status
    then ok (none, s)
    else ok (
      none,
      with_assignments
          (modify_first (λ x. x.id == cmd.assignment_id)
            (λ x. record x { status = CourierAssignmentStatus.cancelled }) s.tables.assignments)
          s,
    )

unassign_found_lem :
    (env : Env) (cmd : UnassignCourierCommand) (s : DispatchStore)
    (found : Option CourierAssignment)
    → assignment_of cmd.assignment_id s ≡ found
    → unassign_found in_memory env cmd found s ≡ unassign_outcome cmd found s
unfolding unassign_found
unassign_found_lem env cmd s none e = refl
unassign_found_lem env cmd s (some a) e = ground (
  arith,
  modify_first-const (λ x. x.id == cmd.assignment_id)
      (λ x. record x { status = CourierAssignmentStatus.cancelled }) s.tables.assignments a e,
)

pub unassign_inbox :
    (cmd : UnassignCourierCommand) (s : DispatchStore) (found : Option CourierAssignment)
    → KeepsInbox s (unassign_outcome cmd found s)
unassign_inbox cmd s none = refl
unassign_inbox cmd s (some a) = elim (Bool-cases (is_cancelled_assignment a.status)) [
  | inl e ↦ rw e
  | inr e ↦ rw e
]

-- UnassignCourier cancels the assignment, with no reply; one that is missing or CANCELLED is left
-- alone. It changes no delivery.
pub unassign_courier-settled :
    (db : Prisma)
    → Documented db
    → (env : Env) (message_id : Key) (cmd : UnassignCourierCommand) (s : DispatchStore)
    → unassign_courier db env message_id cmd s
      ≡ settled env message_id
          (received message_id s)
          (unassign_outcome cmd (assignment_of cmd.assignment_id s) s)
          s
unfolding unassign_courier
unassign_courier-settled db law env mid cmd s = rw (is_in_memory law) (
    consume_lem env mid
      (λ t. unassign_found in_memory env cmd (assignment_of cmd.assignment_id t) t) s _ _ refl
      (unassign_found_lem env cmd s _ refl) (unassign_inbox cmd s _))
