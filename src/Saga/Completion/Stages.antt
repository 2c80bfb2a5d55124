-- ===== src/Saga/Completion/Stages.antt =====
-- Where an order stands in the order service after each answer of a run that goes well.
use hotdrop_orchestration.Base.{Key, ℕ, refl, sym, ap, subst, Option, none, some, List, [], ◌∷◌}
use hotdrop_orchestration.Contracts.{
  OrderStatus, SagaCommand, OrderEvent, Payload, SagaReply, command,
}
use hotdrop_orchestration.Messaging.{OutboxMessage, outbox_row, create_outbox_message}
use hotdrop_orchestration.Order.{Order, SagaInstance}
use hotdrop_orchestration.Order.Service.{new_saga}
use hotdrop_orchestration.Order.Orchestrator.{is_terminal, is_courier_assigned}
use hotdrop_orchestration.Order.Orchestrator.Plan.{
  Plan, forward, capture_plan, changed, to_customer,
}
use hotdrop_orchestration.Order.Orchestrator.Forward.{live_reaction}
use hotdrop_orchestration.Kitchen.{Drop}
use hotdrop_orchestration.Kitchen.Service.{reserved_reply, accepted_reply}
use hotdrop_orchestration.Payment.Service.{authorized_reply, captured_reply}
use hotdrop_orchestration.Dispatch.Service.{assigned_reply}
use hotdrop_orchestration.Saga.System.{System, IsRow}
use hotdrop_orchestration.Saga.Completion.Orders.{
  Ready, answered_moves, delivered_moves, second_sent, third_sent,
}
use hotdrop_orchestration.Saga.Completion.Run.{
  later, Worlds, reserved, authorize, authorized, accept, accepted, assign, assigned, delivered,
  capture, captured, after_reserved, after_authorized, after_accepted, after_assigned,
  after_delivered, after_captured, CanComplete,
}

-- The plan that there is.
abbrev the_plan : Option Plan → Plan
the_plan (some plan) = plan
the_plan none = record { status = OrderStatus.placed; saga = λ g. g; messages = [] }

abbrev plan_for : Order → SagaReply → Plan
plan_for o r = the_plan (forward o r.step r.result)

abbrev plan_to_capture : Order → Key → Plan
plan_to_capture o k = record {
  status = OrderStatus.delivered;
  saga = λ g. record g { step = "CapturePayment" };
  messages =
      changed o OrderStatus.delivered
      ∷ (
        command SagaCommand.capture_payment,
        Payload.payment_body (record { order_id = o.id; payment_id = k }),
      )
      ∷ [];
}

module _ (w : Worlds) (s : System) (o : Order) where
  abbrev pub reserved_saga : SagaInstance
  reserved_saga = record (new_saga o.id) {
    reservation_id = some (w.kitchen.cuid s.kitchen.drawn);
    step = "AuthorizePayment";
  }

  abbrev pub authorized_saga : SagaInstance
  authorized_saga = record reserved_saga {
    payment_id = some (w.payment.cuid s.payment.drawn);
    step = "AcceptOrder";
  }

  abbrev pub assigned_saga : SagaInstance
  assigned_saga = record authorized_saga {
    assignment_id = some (w.dispatch.cuid s.dispatch.drawn);
    step = "AwaitDelivery";
  }

  abbrev pub with_status : OrderStatus → Order
  with_status status = record o { status = status }

  abbrev answers : List Key
  answers = (assigned w s o).id ∷ (delivered w s o).id ∷ (captured w s o).id ∷ []

  abbrev n : ℕ
  n = s.orders.drawn

  module _ (reserve : OutboxMessage) (rows : List Drop) (c : CanComplete w s o reserve rows) where
    pub reserved_stage :
        Ready o.id
          ((authorized w s o).id ∷ (accepted w s o).id ∷ answers)
          (later 2 n)
          (with_status OrderStatus.portions_reserved)
          reserved_saga
          (after_reserved w s o reserve).orders
        × IsRow (authorize w s o) (after_reserved w s o reserve).orders.outbox
    unfolding outbox_row create_outbox_message is_terminal
    reserved_stage =
        let start : Ready o.id
            ((reserved w s o).id ∷ (authorized w s o).id ∷ (accepted w s o).id ∷ answers) n o
            (new_saga o.id) s.orders =
          record {
            order_row = c.order_row;
            saga_row = c.saga_row;
            unseen = c.at_orders;
            drawn_lem = refl;
          } in
        let r = reserved_reply o.id (w.kitchen.cuid s.kitchen.drawn) in
        let plan = plan_for o r in
        let (stands, out) =
          answered_moves w.orders o.id (reserved w s o) _ n o (new_saga o.id) s.orders plan
            (λ x. refl) start r refl
            (live_reaction o (new_saga o.id) o.id r.step r.result plan (rw c.is_placed refl)
              refl) in
        (
          stands,
          subst (IsRow (authorize w s o)) (sym out) (
              second_sent w.orders n (changed o OrderStatus.portions_reserved)
                ((authorize w s o).type, (authorize w s o).payload) [] s.orders.outbox),
        )

    pub authorized_stage :
        Ready o.id
          ((accepted w s o).id ∷ answers)
          (later 4 n)
          (with_status OrderStatus.payment_authorized)
          authorized_saga
          (after_authorized w s o reserve).orders
        × IsRow (accept w s o) (after_authorized w s o reserve).orders.outbox
    unfolding outbox_row create_outbox_message is_terminal is_courier_assigned
    authorized_stage =
        let before = (after_reserved w s o reserve).orders in
        let was = with_status OrderStatus.portions_reserved in
        let r = authorized_reply o.id (w.payment.cuid s.payment.drawn) in
        let plan = plan_for was r in
        let (stands, out) =
          answered_moves w.orders o.id (authorized w s o) ((accepted w s o).id ∷ answers)
            (later 2 n) was reserved_saga before plan (λ x. refl) reserved_stage.0 r refl
            (live_reaction was reserved_saga o.id r.step r.result plan refl refl) in
        (
          stands,
          subst (IsRow (accept w s o)) (sym out) (
              second_sent w.orders (later 2 n) (changed was OrderStatus.payment_authorized)
                ((accept w s o).type, (accept w s o).payload) [] before.outbox),
        )

    pub accepted_stage :
        Ready o.id
          (answers)
          (later 7 n)
          (with_status OrderStatus.preparing)
          (record authorized_saga { step = "AssignCourier" })
          (after_accepted w s o reserve).orders
        × IsRow (assign w s o) (after_accepted w s o reserve).orders.outbox
    unfolding outbox_row create_outbox_message is_terminal is_courier_assigned
    accepted_stage =
        let before = (after_authorized w s o reserve).orders in
        let was = with_status OrderStatus.payment_authorized in
        let r = accepted_reply o.id in
        let plan = plan_for was r in
        let (stands, out) =
          answered_moves w.orders o.id (accepted w s o) (answers) (later 4 n) was authorized_saga
            before plan (λ x. refl) authorized_stage.0 r refl
            (live_reaction was authorized_saga o.id r.step r.result plan refl refl) in
        (
          stands,
          subst (IsRow (assign w s o)) (sym out) (
              third_sent w.orders (later 4 n) (changed was OrderStatus.preparing)
                (to_customer was OrderEvent.confirmed) ((assign w s o).type, (assign w s o).payload)
                [] before.outbox),
        )

    pub assigned_stage :
        Ready o.id
          ((delivered w s o).id ∷ (captured w s o).id ∷ [])
          (later 8 n)
          (with_status OrderStatus.courier_assigned)
          assigned_saga
          (after_assigned w s o reserve).orders
    unfolding outbox_row create_outbox_message is_terminal is_courier_assigned
    assigned_stage =
        let before = (after_accepted w s o reserve).orders in
        let was = with_status OrderStatus.preparing in
        let r = assigned_reply o.id (w.dispatch.cuid s.dispatch.drawn) w.courier in
        let plan = plan_for was r in
        let (stands, out) =
          answered_moves w.orders o.id (assigned w s o)
            ((delivered w s o).id ∷ (captured w s o).id ∷ []) (later 7 n) was
            (record authorized_saga { step = "AssignCourier" }) before plan (λ x. refl)
            accepted_stage.0 r refl
            (live_reaction was (record authorized_saga { step = "AssignCourier" }) o.id r.step
              r.result plan refl refl) in
        stands

    pub delivered_stage :
        Ready o.id
          ((captured w s o).id ∷ [])
          (later 10 n)
          (with_status OrderStatus.delivered)
          (record assigned_saga { step = "CapturePayment" })
          (after_delivered w s o reserve).orders
        × IsRow (capture w s o) (after_delivered w s o reserve).orders.outbox
    unfolding outbox_row create_outbox_message is_terminal is_courier_assigned
    delivered_stage =
        let before = (after_assigned w s o reserve).orders in
        let was = with_status OrderStatus.courier_assigned in
        let plan = plan_to_capture was (w.payment.cuid s.payment.drawn) in
        let (stands, out) =
          delivered_moves w.orders o.id (delivered w s o) ((captured w s o).id ∷ []) (later 8 n) was
            assigned_saga before plan (λ x. refl) assigned_stage refl
            (ap (capture_plan o.id was) c.is_text) in
        (
          stands,
          subst (IsRow (capture w s o)) (sym out) (
              second_sent w.orders (later 8 n) (changed was OrderStatus.delivered)
                ((capture w s o).type, (capture w s o).payload) [] before.outbox),
        )

    pub captured_stage :
        Ready o.id
          ([])
          (later 12 n)
          (with_status OrderStatus.completed)
          (record assigned_saga { step = "Completed" })
          (after_captured w s o reserve).orders
    unfolding outbox_row create_outbox_message is_terminal is_courier_assigned
    captured_stage =
        let before = (after_delivered w s o reserve).orders in
        let was = with_status OrderStatus.delivered in
        let r = captured_reply o.id in
        let plan = plan_for was r in
        let (stands, out) =
          answered_moves w.orders o.id (captured w s o) ([]) (later 10 n) was
            (record assigned_saga { step = "CapturePayment" }) before plan (λ x. refl)
            delivered_stage.0 r refl
            (live_reaction was (record assigned_saga { step = "CapturePayment" }) o.id r.step
              r.result plan refl refl) in
        stands
