-- ===== src/Order/Orchestrator/Forward.antt =====
-- An order for which every step goes well, from its placing to its completion.
use hotdrop_orchestration.Base.{
  Key, ℕ, suc, ◌≡◌, refl, sym, ap, false, Option, none, some, List, [], ◌∷◌, ◌++◌, append-nil,
  truthy,
}
use hotdrop_orchestration.Contracts.{
  OrderStatus, SagaReply, SagaStep, ReplyData, Payload, SagaCommand, OrderEvent, command, ok_status,
}
use hotdrop_orchestration.Prisma.{Prisma, Documented}
use hotdrop_orchestration.Messaging.{Env}
use hotdrop_orchestration.Order.{Order, SagaInstance, OrderStore}
use hotdrop_orchestration.Order.Orchestrator.{
  is_terminal, is_courier_assigned, on_reply, on_delivered,
}
use hotdrop_orchestration.Order.Orchestrator.Plan.{
  Message, Plan, carried_out, received, order_of, saga_of, reply_reaction, delivery_reaction,
  forward, capture_plan, changed, to_customer,
}
use hotdrop_orchestration.Order.Orchestrator.Safety.{Call, reply, delivered, step, run}
use hotdrop_orchestration.Order.Orchestrator.Refinement.{on_reply-settled, on_delivered-settled}
use hotdrop_orchestration.Order.Orchestrator.Journey.{sent, At, carried-At}

-- A reply that reports success.
abbrev pub went_well : Key → SagaStep → Option ReplyData → SagaReply
went_well id step result = record {
  order_id = id;
  step = step;
  status = ok_status;
  reason = none;
  result = result;
}

abbrev no_ids : ReplyData
no_ids = record {
  reservation_id = none;
  payment_id = none;
  assignment_id = none;
  courier_id = none;
}

module _ (id reservation payment assignment : Key) where
  -- The calls of an order that goes well: the portions are reserved, the payment is authorized, the
  -- kitchen accepts, a courier is assigned and delivers, and the payment is captured.
  abbrev pub forward_calls : (ℕ → Env) → (ℕ → Key) → List Call
  forward_calls world message =
      reply (world 0) (message 0) (
        went_well id SagaStep.reserve_portions
          (some (record no_ids { reservation_id = some reservation })))
      ∷ reply (world 1) (message 1) (
          went_well id SagaStep.authorize_payment
            (some (record no_ids { payment_id = some payment })))
      ∷ reply (world 2) (message 2) (went_well id SagaStep.accept_order none)
      ∷ reply (world 3) (message 3) (
          went_well id SagaStep.assign_courier
            (some (record no_ids { assignment_id = some assignment })))
      ∷ delivered (world 4) (message 4) id
      ∷ reply (world 5) (message 5) (went_well id SagaStep.capture_payment none)
      ∷ []

  abbrev pub forward_messages : Order → List Message
  forward_messages o =
      changed o OrderStatus.portions_reserved
      ∷ (
        command SagaCommand.authorize_payment,
        Payload.authorize_body
            (record { order_id = o.id; customer_id = o.customer_id; amount_cents = o.total_cents }),
      )
      ∷ changed o OrderStatus.payment_authorized
      ∷ (command SagaCommand.accept_order, Payload.accept_body (record { order_id = o.id }))
      ∷ changed o OrderStatus.preparing
      ∷ to_customer o OrderEvent.confirmed
      ∷ (
        command SagaCommand.assign_courier,
        Payload.assign_body (record { order_id = o.id; delivery_address = o.delivery_address }),
      )
      ∷ changed o OrderStatus.courier_assigned
      ∷ changed o OrderStatus.delivered
      ∷ (
        command SagaCommand.capture_payment,
        Payload.payment_body (record { order_id = id; payment_id = payment }),
      )
      ∷ changed o OrderStatus.completed
      ∷ to_customer o OrderEvent.completed
      ∷ []

module _ (db : Prisma) (law : Documented db) (message : ℕ → Key)
    (distinct : (i j : ℕ) → message i ≡ message j → i ≡ j) (id : Key) (before : List Message) where
  reply-At :
      (env : Env) (n : ℕ) (o : Order) (g : SagaInstance) (log : List Message) (s : OrderStore)
      (plan : Plan) (r : SagaReply)
      → r.order_id ≡ id
      → At message distinct id before n o g log s
      → reply_reaction r (some o) (some g) ≡ carried_out plan
      → ((x : SagaInstance) → (plan.saga x).order_id ≡ x.order_id)
      → At message distinct id before
          (suc n)
          (record o { status = plan.status })
          (plan.saga g)
          (log ++ plan.messages)
          (on_reply db env (message n) r s).1
  reply-At env n o g log s plan r own here e same =
      rw (on_reply-settled db law env (message n) r s, own, here.order_row, here.saga_row)
        (carried-At message distinct id before env n o g log s plan _ here e same)

  delivered-At :
      (env : Env) (n : ℕ) (o : Order) (g : SagaInstance) (log : List Message) (s : OrderStore)
      (plan : Plan)
      → At message distinct id before n o g log s
      → delivery_reaction id (some o) (some g) ≡ carried_out plan
      → ((x : SagaInstance) → (plan.saga x).order_id ≡ x.order_id)
      → At message distinct id before
          (suc n)
          (record o { status = plan.status })
          (plan.saga g)
          (log ++ plan.messages)
          (on_delivered db env (message n) id s).1
  delivered-At env n o g log s plan here e same =
      rw (on_delivered-settled db law env (message n) id s, here.order_row, here.saga_row)
        (carried-At message distinct id before env n o g log s plan _ here e same)

pub live_reaction :
    (o : Order) (g : SagaInstance) (id : Key) (step : SagaStep) (d : Option ReplyData) (plan : Plan)
    → is_terminal o.status ≡ false
    → forward o step d ≡ some plan
    → reply_reaction (went_well id step d) (some o) (some g) ≡ carried_out plan
live_reaction o g id step d plan live e = rw (live, e)

-- An order that is PLACED and for which every step goes well is COMPLETED by the six messages that
-- report this, whatever ids they and the resources have: its saga row then names the reservation, the
-- payment and the assignment, and the orchestrator has sent the commands of the next steps and the
-- events of each change, in this order, the capture naming the authorized payment. The messages'
-- ids are distinct and new, and the payment's id is no empty text.
pub run-forward_calls :
    (db : Prisma)
    → Documented db
    → (world : ℕ → Env) (message : ℕ → Key) → ((i j : ℕ) → message i ≡ message j → i ≡ j)
    → (id reservation payment assignment : Key) (s : OrderStore) (o : Order) (g : SagaInstance)
    → order_of id s ≡ some o
    → saga_of id s ≡ some g
    → o.status ≡ OrderStatus.placed
    → truthy (some payment) ≡ some payment
    → ((i : ℕ) → received (message i) s ≡ none)
    → let t = run db (forward_calls id reservation payment assignment world message) s in
      (order_of id t ≡ some (record o { status = OrderStatus.completed }))
      × (saga_of id t
          ≡ some (record g {
            step = "Completed";
            reservation_id = some reservation;
            payment_id = some payment;
            assignment_id = some assignment;
          }))
      × (sent t.outbox ≡ sent s.outbox ++ forward_messages id reservation payment assignment o)
unfolding run is_terminal is_courier_assigned
run-forward_calls db law world message distinct id reservation payment assignment s o g found held
      is_placed is_id new =
    let before = sent s.outbox in
    let start : At message distinct id before 0 o g [] s = record {
      order_row = found;
      saga_row = held;
      log_lem = sym (append-nil before);
      unseen = λ i later. new i;
    } in
    let a1 =
      reply-At db law message distinct id before (world 0) 0 o g [] s _ _ refl start
        (live_reaction o g id SagaStep.reserve_portions
          (some (record no_ids { reservation_id = some reservation })) _ (rw is_placed) refl)
        (λ x. refl) in
    let a2 =
      reply-At db law message distinct id before (world 1) 1 _ _ _ _ _
        (went_well id SagaStep.authorize_payment
          (some (record no_ids { payment_id = some payment })))
        refl a1 refl (λ x. refl) in
    let a3 =
      reply-At db law message distinct id before (world 2) 2 _ _ _ _ _
        (went_well id SagaStep.accept_order none) refl a2 refl (λ x. refl) in
    let a4 =
      reply-At db law message distinct id before (world 3) 3 _ _ _ _ _
        (went_well id SagaStep.assign_courier
          (some (record no_ids { assignment_id = some assignment })))
        refl a3 refl (λ x. refl) in
    let a5 =
      delivered-At db law message distinct id before (world 4) 4 _ _ _ _ _ a4
        (ap (capture_plan id (record o { status = OrderStatus.courier_assigned })) is_id)
        (λ x. refl) in
    let a6 =
      reply-At db law message distinct id before (world 5) 5 _ _ _ _ _
        (went_well id SagaStep.capture_payment none) refl a5 refl (λ x. refl) in
    (a6.order_row, a6.saga_row, a6.log_lem)
