-- ===== src/Dispatch/Assigning.antt =====
-- AssignCourier, on every branch.
use hotdrop_orchestration.Base.{
  Key, ℕ, suc, ◌≡◌, refl, ap, ◌∙◌, String, Option, none, some, [], ◌∷◌, ◌++◌, arith, ◌==◌, first,
}
use hotdrop_orchestration.Contracts.{
  CourierAssignmentStatus, DeliveryStatus, AssignCourierCommand, SagaReply, SagaStep, ok_status,
  failed_status,
}
use hotdrop_orchestration.Result.{Result, ok, err, step_failure, unique_violation}
use hotdrop_orchestration.Prisma.{Prisma, Documented, in_memory, is_in_memory}
use hotdrop_orchestration.Messaging.{Env, InboxMessage}
use hotdrop_orchestration.Participant.Consume.{
  received, replied, recorded, settled, consume_lem, KeepsInbox,
}
use hotdrop_orchestration.Dispatch.{CourierAssignment, Delivery, DispatchStore}
use hotdrop_orchestration.Dispatch.Service.{
  no_courier_reply, assigned_reply, create_assignment, create_delivery, assign_work, start_timer,
  assign_courier,
}

abbrev pub Outcome : Type 0
Outcome = Result (Option SagaReply × DispatchStore)

abbrev pub delivery_of : Key → DispatchStore → Option Delivery
delivery_of order_id s = first (λ d. d.order_id == order_id) s.tables.deliveries

abbrev pub assignment_of : Key → DispatchStore → Option CourierAssignment
assignment_of id s = first (λ a. a.id == id) s.tables.assignments

abbrev pub new_assignment : Env → ℕ → Key → String → CourierAssignment
new_assignment env drawn order_id courier_id = record {
  id = env.cuid drawn;
  order_id = order_id;
  courier_id = courier_id;
  status = CourierAssignmentStatus.accepted;
}

abbrev pub new_delivery : Env → ℕ → Key → Key → Delivery
new_delivery env drawn order_id assignment_id = record {
  id = env.cuid drawn;
  order_id = order_id;
  assignment_id = assignment_id;
  status = DeliveryStatus.assigned;
}

-- AssignCourier, from the courier that was found and the delivery that the order may have.
abbrev pub assign_outcome :
    Env → AssignCourierCommand → Option String → Option Delivery → DispatchStore → Outcome
assign_outcome env cmd none d s = err (step_failure (no_courier_reply cmd.order_id))
assign_outcome env cmd (some courier) (some d) s = err unique_violation
assign_outcome env cmd (some courier) none s = ok (
  some (assigned_reply cmd.order_id (env.cuid s.drawn) courier),
  record s {
    tables = record {
      assignments = s.tables.assignments ++ new_assignment env s.drawn cmd.order_id courier ∷ [];
      deliveries =
          s.tables.deliveries
          ++ new_delivery env (suc s.drawn) cmd.order_id (env.cuid s.drawn) ∷ [];
    };
    drawn = suc (suc s.drawn);
  },
)

assign_work_lem :
    (env : Env) (cmd : AssignCourierCommand) (courier : Option String) (s : DispatchStore)
    (d : Option Delivery)
    → delivery_of cmd.order_id s ≡ d
    → assign_work in_memory env cmd courier s ≡ assign_outcome env cmd courier d s
unfolding assign_work create_assignment create_delivery
assign_work_lem env cmd none s d e = refl
assign_work_lem env cmd (some courier) s (some d) e = ground arith
assign_work_lem env cmd (some courier) s none e = ground arith

pub assign_inbox :
    (env : Env) (cmd : AssignCourierCommand) (courier : Option String) (s : DispatchStore)
    (d : Option Delivery)
    → KeepsInbox s (assign_outcome env cmd courier d s)
assign_inbox env cmd none s d = tt
assign_inbox env cmd (some courier) s (some d) = tt
assign_inbox env cmd (some courier) s none = refl

-- The work of AssignCourier as a message that is handled once, and then the timer.
pub assign_courier-settled :
    (db : Prisma)
    → Documented db
    → (env : Env) (message_id : Key) (cmd : AssignCourierCommand) (courier : Option String)
      (s : DispatchStore)
    → assign_courier db env message_id cmd courier s
      ≡ start_timer cmd.order_id courier (
          settled env message_id
            (received message_id s)
            (assign_outcome env cmd courier (delivery_of cmd.order_id s) s)
            s)
unfolding assign_courier
assign_courier-settled db law env mid cmd courier s = rw (is_in_memory law) (
    ap (start_timer cmd.order_id courier) (
      consume_lem env mid (assign_work in_memory env cmd courier) s _ _ refl
        (assign_work_lem env cmd courier s _ refl) (assign_inbox env cmd courier s _)))

-- AssignCourier as a table: what it answers, with the order whose timer is started, and what it
-- leaves, by whether the message is known, a courier was found and the order has a delivery.
abbrev pub assigned :
    Env
    → Key
    → AssignCourierCommand
    → Option InboxMessage
    → Option String
    → Option Delivery
    → DispatchStore
    → Result (Option Key) × DispatchStore
assigned env mid cmd (some _) (some _) d s = (ok (some cmd.order_id), s)
assigned env mid cmd (some _) none d s = (ok none, s)
assigned env mid cmd none none d s = (
  ok none,
  recorded env mid (
      replied env
        (some (record {
          order_id = cmd.order_id;
          step = SagaStep.assign_courier;
          status = failed_status;
          reason = some "NO_COURIER";
          result = none;
        }))
        s),
)
assigned env mid cmd none (some courier) (some d) s = (err unique_violation, s)
assigned env mid cmd none (some courier) none s = (
  ok (some cmd.order_id),
  recorded env mid (
      replied env
        (some (record {
          order_id = cmd.order_id;
          step = SagaStep.assign_courier;
          status = ok_status;
          reason = none;
          result = some (record {
            reservation_id = none;
            payment_id = none;
            assignment_id = some (env.cuid s.drawn);
            courier_id = some courier;
          });
        }))
        (record s {
          tables = record {
            assignments =
                s.tables.assignments
                ++ record {
                  id = env.cuid s.drawn;
                  order_id = cmd.order_id;
                  courier_id = courier;
                  status = CourierAssignmentStatus.accepted;
                }
                  ∷ [];
            deliveries =
                s.tables.deliveries
                ++ record {
                  id = env.cuid (suc s.drawn);
                  order_id = cmd.order_id;
                  assignment_id = env.cuid s.drawn;
                  status = DeliveryStatus.assigned;
                }
                  ∷ [];
          };
          drawn = suc (suc s.drawn);
        })),
)

assigned_lem :
    (env : Env) (mid : Key) (cmd : AssignCourierCommand) (known : Option InboxMessage)
    (courier : Option String) (d : Option Delivery) (s : DispatchStore)
    → start_timer cmd.order_id courier
        (settled env mid known (assign_outcome env cmd courier d s) s)
      ≡ assigned env mid cmd known courier d s
unfolding start_timer
assigned_lem env mid cmd (some _) (some _) d s = refl
assigned_lem env mid cmd (some _) none d s = refl
assigned_lem env mid cmd none none d s = refl
assigned_lem env mid cmd none (some courier) (some d) s = refl
assigned_lem env mid cmd none (some courier) none s = refl

-- AssignCourier, in every case. Where no courier was found a new message fails its saga step with
-- NO_COURIER and starts no timer. Where one was found, a new message creates an accepted assignment
-- and an assigned delivery together, answers with the ids of the assignment and the courier and
-- starts the order's timer; an order that has a delivery already is refused by the database, which
-- undoes the assignment, and starts none. A known message changes nothing, but starts the timer again
-- where a courier was found.
pub assign_courier-assigned :
    (db : Prisma)
    → Documented db
    → (env : Env) (message_id : Key) (cmd : AssignCourierCommand) (courier : Option String)
      (s : DispatchStore)
    → assign_courier db env message_id cmd courier s
      ≡ assigned env message_id cmd (received message_id s) courier (delivery_of cmd.order_id s) s
assign_courier-assigned db law env mid cmd courier s =
    assign_courier-settled db law env mid cmd courier s
    ∙ assigned_lem env mid cmd (received mid s) courier (delivery_of cmd.order_id s) s
