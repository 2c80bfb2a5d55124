-- ===== src/Saga/Answers.antt =====
-- What the kitchen answers to the command of an order, and what the order service does with an answer.
use hotdrop_orchestration.Base.{
  Key, ℕ, suc, ◌≡◌, refl, ◌∙◌, ap, Option, none, some, List, [], ◌∷◌, ◌++◌,
}
use hotdrop_orchestration.Contracts.{Payload, SagaReply, ReservePortionsCommand, saga_reply}
use hotdrop_orchestration.Prisma.{in_memory, in_memory-Documented}
use hotdrop_orchestration.Messaging.{Env, OutboxMessage, outbox_row, create_outbox_message}
use hotdrop_orchestration.Participant.Delivery.{acknowledged_state}
use hotdrop_orchestration.Participant.Consume as Consume
use hotdrop_orchestration.Order.{Order, SagaInstance, OrderStore}
use hotdrop_orchestration.Order.Orchestrator.{on_reply}
use hotdrop_orchestration.Order.Consumer.{a_reply, order_consumer}
use hotdrop_orchestration.Order.Orchestrator.Plan.{
  Message, Plan, plan_of, reply_reaction, carried_out, with_inbox, planned, order_of, saga_of,
  received, changed, ended,
}
use hotdrop_orchestration.Order.Orchestrator.Plan as Plan
use hotdrop_orchestration.Order.Orchestrator.Refinement.{on_reply-settled}
use hotdrop_orchestration.Kitchen.{Drop, KitchenStore, KitchenTables}
use hotdrop_orchestration.Kitchen.Service.{reserve_portions, reserved_reply, sold_out_reply}
use hotdrop_orchestration.Kitchen.Consumer.{on_reserve, kitchen_consumer}
use hotdrop_orchestration.Kitchen.Inventory.{taken}
use hotdrop_orchestration.Kitchen.Reserving.{
  for_order, new_reservation, reserve_outcome, reserve_portions-settled,
}
use hotdrop_orchestration.Saga.{
  newest, newest-append, kitchen_message, saga_message, kitchen_hears, orders_hear,
}

module _ (env : Env) (ttl : ℕ) (k : KitchenStore) (cmd : ReservePortionsCommand) where
  -- What the kitchen answers, and its tables then, from the drops after the lines took their portions.
  abbrev pub answer : Option (List Drop) → SagaReply
  answer none = sold_out_reply cmd.order_id
  answer (some rows) = reserved_reply cmd.order_id (env.cuid k.drawn)

  abbrev pub tables_after : Option (List Drop) → KitchenTables
  tables_after none = k.tables
  tables_after (some rows) = record {
    drops = rows;
    reservations = k.tables.reservations ++ new_reservation env ttl k.drawn cmd ∷ [];
  }

  abbrev pub answer_id : Option (List Drop) → Key
  answer_id none = env.random_uuid k.drawn
  answer_id (some rows) = env.random_uuid (suc k.drawn)

  pub kitchen_state :
      (m : OutboxMessage) (fit : Option (List Drop))
      → m.payload ≡ Payload.reserve_body cmd
      → Consume.received m.id k ≡ none
      → for_order cmd.order_id k.tables.reservations ≡ none
      → taken cmd.lines k.tables.drops ≡ fit
      → kitchen_hears in_memory env ttl (some m) k
        ≡ (Consume.settled env m.id none (reserve_outcome env ttl cmd fit none k) k).1
  unfolding kitchen_hears kitchen_message kitchen_consumer
  kitchen_state m fit body new fresh e =
      let heard : kitchen_hears in_memory env ttl (some m) k
          ≡ (kitchen_consumer in_memory env ttl m.id (on_reserve cmd) k).1 =
        rw body in
      let outcome : (Consume.settled env m.id (Consume.received m.id k)
            (reserve_outcome env ttl cmd (taken cmd.lines k.tables.drops)
              (for_order cmd.order_id k.tables.reservations) k)
            k).1
          ≡ (Consume.settled env m.id none (reserve_outcome env ttl cmd fit none k) k).1 =
        rw (new, fresh, e) in
      heard
      ∙ acknowledged_state (reserve_portions in_memory env ttl m.id cmd k)
      ∙ ap (λ o. o.1) (reserve_portions-settled in_memory in_memory-Documented env ttl m.id cmd k)
      ∙ outcome

  -- The kitchen's tables and its newest outbox row after the command.
  pub kitchen_answers :
      (m : OutboxMessage) (fit : Option (List Drop))
      → m.payload ≡ Payload.reserve_body cmd
      → Consume.received m.id k ≡ none
      → for_order cmd.order_id k.tables.reservations ≡ none
      → taken cmd.lines k.tables.drops ≡ fit
      → let t = kitchen_hears in_memory env ttl (some m) k in
        (t.tables ≡ tables_after fit)
        × (newest t.outbox
            ≡ some (record {
              id = answer_id fit;
              type = saga_reply;
              payload = Payload.reply_body (answer fit);
              created_at = env.now;
              published_at = none;
              traceparent = env.active_trace;
            }))
  unfolding outbox_row create_outbox_message
  kitchen_answers m none body new fresh e =
      rw (kitchen_state m none body new fresh e) (refl, newest-append k.outbox _)
  kitchen_answers m (some rows) body new fresh e =
      rw (kitchen_state m (some rows) body new fresh e) (refl, newest-append k.outbox _)

pub orders_state :
    (env : Env) (m : OutboxMessage) (r : SagaReply) (s : OrderStore) (o : Order) (g : SagaInstance)
    (plan : Plan)
    → m.payload ≡ Payload.reply_body r
    → received m.id s ≡ none
    → order_of r.order_id s ≡ some o
    → saga_of r.order_id s ≡ some g
    → reply_reaction r (some o) (some g) ≡ carried_out plan
    → orders_hear in_memory env (some m) s ≡ with_inbox env m.id (planned env r.order_id plan s)
unfolding orders_hear saga_message order_consumer
orders_state env m r s o g plan body new found held e =
    let heard : orders_hear in_memory env (some m) s
        ≡ (order_consumer in_memory env m.id (a_reply r) s).1 =
      rw body in
    let outcome : (Plan.settled env m.id r.order_id (received m.id s)
          (reply_reaction r (order_of r.order_id s) (saga_of r.order_id s)) s).1
        ≡ with_inbox env m.id (planned env r.order_id plan s) =
      rw (new, found, held, e) in
    heard
    ∙ acknowledged_state (on_reply in_memory env m.id r s)
    ∙ ap (λ x. x.1) (on_reply-settled in_memory in_memory-Documented env m.id r s)
    ∙ outcome
