-- ===== src/Saga/Ties/Dispatch.antt =====
-- The dispatch service's transactions, and its assignments and messages beside the orders.
use hotdrop_orchestration.Base.{
  Key, String, ◌≡◌, refl, sym, ◌∙◌, ap, subst, Option, none, some, [], ◌∷◌, ◌==◌, ==_refl,
  modify_first, first-append, All-append, Bool-cases, inl, inr,
}
use hotdrop_orchestration.Contracts.{
  Payload, AssignCourierCommand, UnassignCourierCommand, CourierAssignmentStatus,
}
use hotdrop_orchestration.Result.{Result, ok, err}
use hotdrop_orchestration.Prisma.{Prisma, Documented}
use hotdrop_orchestration.Messaging.{Env, OutboxMessage, outbox_row, create_outbox_message}
use hotdrop_orchestration.Participant.Delivery.{acknowledged_state}
use hotdrop_orchestration.Participant.Consume.{received}
use hotdrop_orchestration.Dispatch.{
  CourierAssignment, Delivery, DispatchTables, DispatchStore, is_delivered, is_cancelled_assignment,
  assignment_key,
}
use hotdrop_orchestration.Dispatch.Service.{
  assign_courier, unassign_courier, complete_delivery, start_timer,
}
use hotdrop_orchestration.Dispatch.Assigning.{
  Outcome, delivery_of, assignment_of, new_assignment, assign_outcome, assign_courier-settled,
}
use hotdrop_orchestration.Dispatch.Commands.{
  delivered, complete_outcome, complete_delivery-settled, unassign_outcome,
  unassign_courier-settled,
}
use hotdrop_orchestration.Dispatch.Consumer.{dispatch_consumer}
use hotdrop_orchestration.Saga.{dispatch_hears, dispatch_message}
use hotdrop_orchestration.Saga.System.{IsNew}
use hotdrop_orchestration.Saga.Ties.Tables.{
  IsTable, append-Found, modify_first-Found, append-IsTable, modify_first-IsTable,
}
use hotdrop_orchestration.Saga.Ties.World.{World, Agrees, IsWanted, assignment_order_key}
use hotdrop_orchestration.Saga.Ties.Replies.{
  Later-refl, IsTied, Moved, stayed, Works, OutcomeTied, settled-Moved,
}

module _ (w : World) where
  abbrev pub with_assignments : DispatchTables → World
  with_assignments t = record w { assignments = t.assignments }

  abbrev pub HasWanted : DispatchTables → Type 0
  HasWanted t = IsTable assignment_key assignment_order_key (IsWanted w) t.assignments

  abbrev pub DispatchTied : DispatchStore → Type 0
  DispatchTied = IsTied with_assignments HasWanted

  abbrev pub DispatchMoved : DispatchStore → DispatchStore → Type 0
  DispatchMoved = Moved with_assignments HasWanted

  abbrev Tied : DispatchStore → Outcome → Type 0
  Tied = OutcomeTied with_assignments HasWanted

  Works-still : (s : DispatchStore) → HasWanted s.tables → Works with_assignments HasWanted s s
  Works-still s h = (Later-refl (with_assignments s.tables), h, refl)

  assign-Tied :
      (env : Env) (cmd : AssignCourierCommand) (courier : Option String) (d : Option Delivery)
      (s : DispatchStore)
      → IsNew assignment_key (env.cuid s.drawn) s.tables.assignments
      → Agrees w (Payload.assign_body cmd)
      → HasWanted s.tables
      → Tied s (assign_outcome env cmd courier d s)
  assign-Tied env cmd none d s new asked h = tt
  assign-Tied env cmd (some courier) (some d) s new asked h = tt
  assign-Tied env cmd (some courier) none s new asked h =
      let row = new_assignment env s.drawn cmd.order_id courier in
      (
        (
          record {
            agreed = λ k t x. x;
            reserved = λ k i x. x;
            paid = λ k i x. x;
            assigned = λ k i x.
                append-Found assignment_key assignment_order_key i k s.tables.assignments (row ∷ [])
                  x;
          },
          append-IsTable assignment_key assignment_order_key (IsWanted w) s.tables.assignments row
              new (asked.0, asked.1) h,
          refl,
        ),
        (
          tt,
          tt,
          (
            row,
            first-append (λ x. x.id == row.id) s.tables.assignments row new (==_refl row.id),
            refl,
          ),
        ),
      )

  abbrev cancelled_assignment : Key → DispatchStore → DispatchStore
  cancelled_assignment id s = record s {
    tables = record (s.tables) {
      assignments =
          modify_first (λ a. a.id == id)
            (λ a. record a { status = CourierAssignmentStatus.cancelled }) s.tables.assignments;
    };
  }

  cancelled-Works :
      (id : Key) (s : DispatchStore)
      → HasWanted s.tables
      → Works with_assignments HasWanted s (cancelled_assignment id s)
  cancelled-Works id s h = (
    record {
      agreed = λ k t x. x;
      reserved = λ k i x. x;
      paid = λ k i x. x;
      assigned = λ k i x.
          modify_first-Found assignment_key assignment_order_key (λ a. a.id == id)
            (λ a. record a { status = CourierAssignmentStatus.cancelled }) (λ a. refl) (λ a. refl) i
            k s.tables.assignments x;
    },
    modify_first-IsTable assignment_key assignment_order_key (IsWanted w) (λ a. a.id == id)
        (λ a. record a { status = CourierAssignmentStatus.cancelled }) s.tables.assignments
        (λ a. refl) (λ a. refl) (λ a x. x) h,
    refl,
  )

  unassign-Tied :
      (cmd : UnassignCourierCommand) (found : Option CourierAssignment) (s : DispatchStore)
      → HasWanted s.tables
      → Tied s (unassign_outcome cmd found s)
  unassign-Tied cmd none s h = Works-still s h
  unassign-Tied cmd (some a) s h = elim (Bool-cases (is_cancelled_assignment a.status)) [
    | inl e ↦ rw e (Works-still s h)
    | inr e ↦ rw e (cancelled-Works cmd.assignment_id s h)
  ]

  delivered_moved :
      (env : Env) (order_id : Key) (s : DispatchStore)
      → DispatchTied s
      → DispatchMoved s (delivered env order_id s)
  unfolding outbox_row create_outbox_message
  delivered_moved env order_id s h = (
    Later-refl (with_assignments s.tables),
    (h.0, All-append (λ m. Agrees (with_assignments s.tables) m.payload) s.outbox _ h.1 (tt, tt)),
  )

  driven_cases :
      (env : Env) (order_id : Key) (found : Option Delivery) (s : DispatchStore)
      → DispatchTied s
      → DispatchMoved s (complete_outcome env order_id found s)
  driven_cases env order_id none s h = stayed with_assignments HasWanted s h
  driven_cases env order_id (some d) s h = elim (Bool-cases (is_delivered d.status)) [
    | inl over ↦ rw over (stayed with_assignments HasWanted s h)
    | inr open_one ↦ rw open_one (delivered_moved env order_id s h)
  ]

  -- Starting the timer leaves the database alone.
  timed_state :
      (order_id : Key) (courier : Option String) (o : Result (Unit {0}) × DispatchStore)
      → (start_timer order_id courier o).1 ≡ o.1
  unfolding start_timer
  timed_state order_id courier (err e, s) = refl
  timed_state order_id none (ok a, s) = refl
  timed_state order_id (some c) (ok a, s) = refl

  module _ {db : Prisma} (law : Documented db) where
    pub driven_moved :
        (env : Env) (order_id : Key) (s : DispatchStore)
        → DispatchTied s
        → DispatchMoved s (complete_delivery db env order_id s)
    driven_moved env order_id s h =
        subst (DispatchMoved s) (sym (complete_delivery-settled db law env order_id s))
          (driven_cases env order_id (delivery_of order_id s) s h)

    assign_moved :
        (env : Env) (m : Key) (cmd : AssignCourierCommand) (courier : Option String)
        (s : DispatchStore)
        → IsNew assignment_key (env.cuid s.drawn) s.tables.assignments
        → Agrees w (Payload.assign_body cmd)
        → DispatchTied s
        → DispatchMoved s (assign_courier db env m cmd courier s).1
    assign_moved env m cmd courier s new asked h =
        subst (DispatchMoved s)
          (sym (
            ap (λ o. o.1) (assign_courier-settled db law env m cmd courier s)
            ∙ timed_state cmd.order_id courier _))
          (settled-Moved with_assignments HasWanted env m (received m s) _ s
            (assign-Tied env cmd courier (delivery_of cmd.order_id s) s new asked h.0) h)

    unassign_moved :
        (env : Env) (m : Key) (cmd : UnassignCourierCommand) (s : DispatchStore)
        → DispatchTied s
        → DispatchMoved s (unassign_courier db env m cmd s).1
    unassign_moved env m cmd s h =
        subst (λ o. DispatchMoved s o.1) (sym (unassign_courier-settled db law env m cmd s))
          (settled-Moved with_assignments HasWanted env m (received m s) _ s
            (unassign-Tied cmd (assignment_of cmd.assignment_id s) s h.0) h)

    heard_cases :
        (env : Env) (courier : Option String) (m : OutboxMessage) (s : DispatchStore)
        (body : Payload)
        → m.payload ≡ body
        → IsNew assignment_key (env.cuid s.drawn) s.tables.assignments
        → Agrees w body
        → DispatchTied s
        → DispatchMoved s (dispatch_hears db env courier (some m) s)
    unfolding dispatch_hears dispatch_message dispatch_consumer
    heard_cases env courier m s (Payload.assign_body cmd) e new asked h = rw e (
        rw (acknowledged_state (assign_courier db env m.id cmd courier s))
          (assign_moved env m.id cmd courier s new asked h))
    heard_cases env courier m s (Payload.unassign_body cmd) e new asked h = rw e (
        rw (acknowledged_state (unassign_courier db env m.id cmd s))
          (unassign_moved env m.id cmd s h))
    heard_cases env courier m s _ e new asked h = rw e (stayed with_assignments HasWanted s h)

    -- The dispatch service hears a message that agrees with the orders.
    pub heard_moved :
        (env : Env) (courier : Option String) (m : OutboxMessage) (s : DispatchStore)
        → IsNew assignment_key (env.cuid s.drawn) s.tables.assignments
        → Agrees w m.payload
        → DispatchTied s
        → DispatchMoved s (dispatch_hears db env courier (some m) s)
    heard_moved env courier m s new asked h = heard_cases env courier m s m.payload refl new asked h
