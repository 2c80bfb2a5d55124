-- ===== src/Saga/Reserving.antt =====
-- The first step of an order's saga, over the order service and the kitchen.
use hotdrop_orchestration.Base.{
  ℕ, suc, ◌≡◌, refl, Option, none, some, List, [], ◌∷◌, ◌++◌, map, total, ◌==◌, ==_refl,
  first-append, first-modify_first_self,
}
use hotdrop_orchestration.Contracts.{
  OrderStatus, Payload, SagaCommand, OrderEvent, SagaReply, ReservePortionsCommand, OrderLineInput,
  command, saga_reply,
}
use hotdrop_orchestration.Prisma.{Prisma, Documented, in_memory, in_memory-Documented, is_in_memory}
use hotdrop_orchestration.Messaging.{Env, OutboxMessage, outbox_row, create_outbox_message}
use hotdrop_orchestration.Participant.Consume as Consume
use hotdrop_orchestration.Order.{Order, SagaInstance, OrderStore}
use hotdrop_orchestration.Order.Orchestrator.{is_terminal}
use hotdrop_orchestration.Order.Service.{
  PlaceOrderInput, place_order, line_inputs, new_order, new_saga,
}
use hotdrop_orchestration.Order.Service.Placing.{line_price, placed, place-get}
use hotdrop_orchestration.Order.Orchestrator.Plan.{
  Message, Plan, plan_of, reply_reaction, carried_out, order_of, saga_of, received, changed, ended,
}
use hotdrop_orchestration.Order.Orchestrator.Journey.{sent, sent-send}
use hotdrop_orchestration.Kitchen.{Drop, KitchenStore}
use hotdrop_orchestration.Kitchen.Inventory.{taken}
use hotdrop_orchestration.Kitchen.Reserving.{for_order}
use hotdrop_orchestration.Saga.{newest, newest-append, kitchen_hears, orders_hear}
use hotdrop_orchestration.Saga.Answers.{
  answer, tables_after, answer_id, kitchen_answers, orders_state,
}

-- A reply for an order that is PLACED is acted on.
placed_reaction :
    (r : SagaReply) (o : Order) (g : SagaInstance) (plan : Plan)
    → o.status ≡ OrderStatus.placed
    → plan_of o g r r.status ≡ some plan
    → reply_reaction r (some o) (some g) ≡ carried_out plan
unfolding is_terminal
placed_reaction r o g plan is_placed e = rw (is_placed, e)

module _ (o : Order) where
  -- The order's status and the messages that follow the kitchen's answer.
  abbrev pub status_after : Option (List Drop) → OrderStatus
  status_after none = OrderStatus.rejected
  status_after (some rows) = OrderStatus.portions_reserved

  abbrev pub messages_after : Option (List Drop) → List Message
  messages_after none = changed o OrderStatus.rejected ∷ ended o OrderEvent.rejected "SOLD_OUT" ∷ []
  messages_after (some rows) =
      changed o OrderStatus.portions_reserved
      ∷ (
        command SagaCommand.authorize_payment,
        Payload.authorize_body
            (record { order_id = o.id; customer_id = o.customer_id; amount_cents = o.total_cents }),
      )
      ∷ []

  -- The order service after the kitchen's answer.
  orders_answer :
      (env kenv : Env) (ttl : ℕ) (k : KitchenStore) (cmd : ReservePortionsCommand)
      (m : OutboxMessage) (s : OrderStore) (fit : Option (List Drop))
      → m.payload ≡ Payload.reply_body (answer kenv ttl k cmd fit)
      → received m.id s ≡ none
      → order_of cmd.order_id s ≡ some o
      → saga_of cmd.order_id s ≡ some (new_saga cmd.order_id)
      → o.status ≡ OrderStatus.placed
      → let t = orders_hear in_memory env (some m) s in
        (order_of cmd.order_id t ≡ some (record o { status = status_after fit }))
        × (sent t.outbox ≡ sent s.outbox ++ messages_after fit)
  orders_answer env kenv ttl k cmd m s none body new found held is_placed =
      rw
        (orders_state env m (answer kenv ttl k cmd none) s o (new_saga cmd.order_id) _ body new
          found held
          (placed_reaction (answer kenv ttl k cmd none) o (new_saga cmd.order_id) _ is_placed refl))
        (
          first-modify_first_self (λ x. x.id == cmd.order_id)
              (λ x. record x { status = OrderStatus.rejected }) s.tables.orders o (λ x. refl) found,
          sent-send env s.drawn (messages_after none) s.outbox,
        )
  orders_answer env kenv ttl k cmd m s (some rows) body new found held is_placed =
      rw
        (orders_state env m (answer kenv ttl k cmd (some rows)) s o (new_saga cmd.order_id) _ body
          new found held
          (placed_reaction (answer kenv ttl k cmd (some rows)) o (new_saga cmd.order_id) _ is_placed
            refl))
        (
          first-modify_first_self (λ x. x.id == cmd.order_id)
              (λ x. record x { status = OrderStatus.portions_reserved }) s.tables.orders o
              (λ x. refl) found,
          sent-send env s.drawn (messages_after (some rows)) s.outbox,
        )

-- The new order's row, the command for the kitchen, and the drops after the lines took their portions,
-- if they can.
abbrev pub placed_row : Env → PlaceOrderInput → OrderStore → Order
placed_row env input s = new_order env s.drawn input (total line_price input.lines)

abbrev pub asked_lines : PlaceOrderInput → List OrderLineInput
asked_lines input = map (λ l. record { drop_id = l.drop_id; qty = l.qty }) input.lines

abbrev pub first_command : Env → PlaceOrderInput → OrderStore → ReservePortionsCommand
first_command env input s = record { order_id = env.cuid s.drawn; lines = asked_lines input }

abbrev pub fit : PlaceOrderInput → KitchenStore → Option (List Drop)
fit input k = taken (asked_lines input) k.tables.drops

answer_new :
    (kenv : Env) (ttl : ℕ) (k : KitchenStore) (cmd : ReservePortionsCommand) (t : OrderStore)
    (room : Option (List Drop))
    → ((n : ℕ) → received (kenv.random_uuid n) t ≡ none)
    → received (answer_id kenv ttl k cmd room) t ≡ none
answer_new kenv ttl k cmd t none new = new k.drawn
answer_new kenv ttl k cmd t (some rows) new = new (suc k.drawn)

-- The same, from the order service once the command is in its outbox.
reserve_leg :
    (kenv later : Env) (ttl : ℕ) (k : KitchenStore) (cmd : ReservePortionsCommand)
    (m : OutboxMessage) (t : OrderStore) (row : Order) (room : Option (List Drop))
    → newest t.outbox ≡ some m
    → m.payload ≡ Payload.reserve_body cmd
    → Consume.received m.id k ≡ none
    → for_order cmd.order_id k.tables.reservations ≡ none
    → taken cmd.lines k.tables.drops ≡ room
    → order_of cmd.order_id t ≡ some row
    → saga_of cmd.order_id t ≡ some (new_saga cmd.order_id)
    → row.status ≡ OrderStatus.placed
    → ((n : ℕ) → received (kenv.random_uuid n) t ≡ none)
    → let kitchen = kitchen_hears in_memory kenv ttl (newest t.outbox) k in
      let u = orders_hear in_memory later (newest kitchen.outbox) t in
      (kitchen.tables ≡ tables_after kenv ttl k cmd room)
      × (order_of cmd.order_id u ≡ some (record row { status = status_after row room }))
      × (sent u.outbox ≡ sent t.outbox ++ messages_after row room)
reserve_leg kenv later ttl k cmd m t row room last body new fresh e found held is_placed
      new_answer =
    let answered = kitchen_answers kenv ttl k cmd m room body new fresh e in
    let reply_row : OutboxMessage = record {
      id = answer_id kenv ttl k cmd room;
      type = saga_reply;
      payload = Payload.reply_body (answer kenv ttl k cmd room);
      created_at = kenv.now;
      published_at = none;
      traceparent = kenv.active_trace;
    } in
    let acted =
      orders_answer row later kenv ttl k cmd reply_row t room refl
        (answer_new kenv ttl k cmd t room new_answer) found held is_placed in
    rw (last, answered.1) (answered.0, acted.0, acted.1)

-- An order is placed, the kitchen hears the command that the order service has sent, and the order
-- service hears the kitchen's answer. Where every line's drop has the portions, they are taken, the
-- reservation is created, the order is PORTIONS_RESERVED and the payment of its total is asked for;
-- where one lacks them, the kitchen's tables stay as they were and the order is REJECTED as SOLD_OUT.
-- The ids that the services draw are new, and each message is new to the service that hears it.
pub place-reserve :
    (db : Prisma)
    → Documented db
    → (env kenv later : Env) (ttl : ℕ) (input : PlaceOrderInput) (s : OrderStore) (k : KitchenStore)
    → order_of (env.cuid s.drawn) s ≡ none
    → saga_of (env.cuid s.drawn) s ≡ none
    → for_order (env.cuid s.drawn) k.tables.reservations ≡ none
    → Consume.received (env.random_uuid (suc s.drawn)) k ≡ none
    → ((n : ℕ) → received (kenv.random_uuid n) s ≡ none)
    → let t = (place_order db env input s).1 in
      let kitchen = kitchen_hears db kenv ttl (newest t.outbox) k in
      let u = orders_hear db later (newest kitchen.outbox) t in
      let row = placed_row env input s in
      let room = fit input k in
      (kitchen.tables ≡ tables_after kenv ttl k (first_command env input s) room)
      × (order_of row.id u ≡ some (record row { status = status_after row room }))
      × (sent u.outbox ≡ sent t.outbox ++ messages_after row room)
unfolding outbox_row create_outbox_message line_inputs
place-reserve db law env kenv later ttl input s k no_order no_saga no_reservation new new_answer =
    let cents = total line_price input.lines in
    let start = place-get in_memory in_memory-Documented env input s no_order no_saga in
    let message = outbox_row env (
      create_outbox_message env (suc s.drawn) (command SagaCommand.reserve_portions)
        (Payload.reserve_body (first_command env input s))) in
    rw (is_in_memory law, start.0)
      (reserve_leg kenv later ttl k (first_command env input s) message (placed env input cents s)
        (placed_row env input s) (fit input k) (newest-append s.outbox message) refl new
        no_reservation refl
        (first-append (λ (o : Order). o.id == env.cuid s.drawn) s.tables.orders
          (placed_row env input s) no_order (==_refl (env.cuid s.drawn)))
        start.2 refl new_answer)
