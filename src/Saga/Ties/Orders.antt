-- ===== src/Saga/Ties/Orders.antt =====
-- The order service's transactions, and its outbox and saga rows beside what the services hold.
use hotdrop_orchestration.Base.{
  Key, ℕ, ◌≡◌, refl, sym, subst, Option, none, some, [], ◌∷◌, ◌==◌, ==_iff, ==_refl, All,
  All-append, first, first_holds, first-append,
}
use hotdrop_orchestration.Contracts.{SagaReply, Payload}
use hotdrop_orchestration.Prisma.{Prisma, Documented, in_memory, is_in_memory}
use hotdrop_orchestration.Participant.Delivery.{acknowledged_state}
use hotdrop_orchestration.Messaging.{
  Env, InboxMessage, OutboxMessage, outbox_row, create_outbox_message,
}
use hotdrop_orchestration.Order.{Order, SagaInstance, OrderStore, order_key}
use hotdrop_orchestration.Order.Orchestrator.{on_reply, on_delivered, cancel_order}
use hotdrop_orchestration.Order.Orchestrator.Plan.{
  Plan, Reaction, ignored, carried_out, refused, planned, settled, requested, received, order_of,
  saga_of,
}
use hotdrop_orchestration.Order.Orchestrator.Refinement.{
  on_reply-settled, on_delivered-settled, cancel_order-requested,
}
use hotdrop_orchestration.Order.Consumer.{order_consumer}
use hotdrop_orchestration.Order.Service.{PlaceOrderInput, place_order, add_lines, new_order}
use hotdrop_orchestration.Order.Service.Placing.{placed, place_work_lem, place_work_refused}
use hotdrop_orchestration.Saga.{orders_hear, saga_message}
use hotdrop_orchestration.Saga.Ties.Tables.{
  All-map, modify_first-All, first-All, modify_first-Found, append-Found,
}
use hotdrop_orchestration.Saga.Ties.World.{
  World, Later, Agreed, Agrees, AgreesAll, NamesOwn, NamesOwn-later, Agrees-later, AgreesAll-later,
  send-AgreesAll, terms_of,
}
use hotdrop_orchestration.Saga.Ties.Plans.{
  PlanTied, ReactionTied, OrderTied, SagaTied, reply_tied, delivery_tied, cancel_reaction_tied,
}

module _ (w : World) where
  -- The world with the orders of the store.
  abbrev pub with_orders : OrderStore → World
  with_orders s = record w { orders = s.tables.orders }

  abbrev pub OrdersTied : OrderStore → Type 0
  OrdersTied s = AgreesAll (with_orders s) s.outbox × All (NamesOwn (with_orders s)) s.tables.sagas

  -- A transaction from one store to another.
  abbrev pub OrdersMoved : OrderStore → OrderStore → Type 0
  OrdersMoved s t = Later (with_orders s) (with_orders t) × OrdersTied t

  Later-self : (v : World) → Later v v
  Later-self v = record {
    agreed = λ id t h. h;
    reserved = λ id k h. h;
    paid = λ id k h. h;
    assigned = λ id k h. h;
  }

  stayed : (s : OrderStore) → OrdersTied s → OrdersMoved s s
  stayed s h = (Later-self (with_orders s), h)

  planned-Later :
      (env : Env) (id : Key) (plan : Plan) (s : OrderStore)
      → Later (with_orders s) (with_orders (planned env id plan s))
  planned-Later env id plan s = record {
    agreed = λ k t h.
        modify_first-Found order_key terms_of (λ o. o.id == id)
          (λ o. record o { status = plan.status }) (λ o. refl) (λ o. refl) k t s.tables.orders h;
    reserved = λ id k h. h;
    paid = λ id k h. h;
    assigned = λ id k h. h;
  }

  planned_moved :
      (env : Env) (id : Key) (plan : Plan) (s : OrderStore)
      → PlanTied (with_orders s) id plan
      → OrdersTied s
      → OrdersMoved s (planned env id plan s)
  planned_moved env id plan s p h =
      let l = planned-Later env id plan s in
      let v = with_orders (planned env id plan s) in
      (
        l,
        (
          send-AgreesAll v env s.drawn plan.messages s.outbox
              (All-map plan.messages (λ m x. Agrees-later l m.1 x) p.0)
              (AgreesAll-later l s.outbox h.0),
          All-map _ (λ g x. NamesOwn-later l g x)
              (modify_first-All (λ g. g.order_id == id) plan.saga s.tables.sagas
                (λ g hit x. p.1 g ((==_iff g.order_id id).0 hit) x) h.1),
        ),
      )

  settled_moved :
      (env : Env) (m id : Key) (seen : Option InboxMessage) (r : Reaction) (s : OrderStore)
      → ReactionTied (with_orders s) id r
      → OrdersTied s
      → OrdersMoved s (settled env m id seen r s).1
  settled_moved env m id (some x) r s p h = stayed s h
  settled_moved env m id none ignored s p h = stayed s h
  settled_moved env m id none (carried_out plan) s p h = planned_moved env id plan s p h
  settled_moved env m id none (refused e) s p h = stayed s h

  requested_moved :
      (env : Env) (id : Key) (r : Reaction) (s : OrderStore)
      → ReactionTied (with_orders s) id r
      → OrdersTied s
      → OrdersMoved s (requested env id r s).1
  requested_moved env id ignored s p h = stayed s h
  requested_moved env id (carried_out plan) s p h = planned_moved env id plan s p h
  requested_moved env id (refused e) s p h = stayed s h

  found_order :
      (s : OrderStore) (id : Key) (o : Option Order)
      → order_of id s ≡ o
      → OrderTied (with_orders s) id o
  found_order s id none e = tt
  found_order s id (some o) e =
      let same = (==_iff o.id id).0 (first_holds (λ x. x.id == id) s.tables.orders o e) in
      (same, (o, subst (λ k. first (λ x. x.id == k) s.tables.orders ≡ some o) (sym same) e, refl))

  found_saga :
      (s : OrderStore) (id : Key) (g : Option SagaInstance)
      → saga_of id s ≡ g
      → OrdersTied s
      → SagaTied (with_orders s) id g
  found_saga s id none e h = tt
  found_saga s id (some g) e h = (
    (==_iff g.order_id id).0 (first_holds (λ x. x.order_id == id) s.tables.sagas g e),
    first-All (NamesOwn (with_orders s)) (λ x. x.order_id == id) s.tables.sagas g e h.1,
  )

  placed_moved :
      (env : Env) (input : PlaceOrderInput) (cents : ℕ) (s : OrderStore)
      → order_of (env.cuid s.drawn) s ≡ none
      → OrdersTied s
      → OrdersMoved s (placed env input cents s)
  unfolding outbox_row create_outbox_message
  placed_moved env input cents s fresh h =
      let o = new_order env s.drawn input cents in
      let v = with_orders (placed env input cents s) in
      let l : Later (with_orders s) v = record {
        agreed = λ k t x. append-Found order_key terms_of k t s.tables.orders (o ∷ []) x;
        reserved = λ id k h. h;
        paid = λ id k h. h;
        assigned = λ id k h. h;
      } in
      let new : Agreed v o.id (terms_of o) =
        (o, first-append (λ x. x.id == o.id) s.tables.orders o fresh (==_refl o.id), refl) in
      (
        l,
        (
          All-append (λ m. Agrees v m.payload) s.outbox _ (AgreesAll-later l s.outbox h.0)
              ((terms_of o, new, refl), tt),
          All-append (NamesOwn v) s.tables.sagas _
              (All-map s.tables.sagas (λ g x. NamesOwn-later l g x) h.1) ((tt, tt, tt), tt),
        ),
      )

  module _ {db : Prisma} (law : Documented db) where
    on_reply_moved :
        (env : Env) (m : Key) (r : SagaReply) (s : OrderStore)
        → Agrees (with_orders s) (Payload.reply_body r)
        → OrdersTied s
        → OrdersMoved s (on_reply db env m r s).1
    on_reply_moved env m r s answer h =
        subst (λ o. OrdersMoved s o.1) (sym (on_reply-settled db law env m r s))
          (settled_moved env m r.order_id (received m s) _ s
            (reply_tied (with_orders s) r _ _ (found_order s r.order_id _ refl)
              (found_saga s r.order_id _ refl h) answer)
            h)

    on_delivered_moved :
        (env : Env) (m id : Key) (s : OrderStore)
        → OrdersTied s
        → OrdersMoved s (on_delivered db env m id s).1
    on_delivered_moved env m id s h =
        subst (λ o. OrdersMoved s o.1) (sym (on_delivered-settled db law env m id s))
          (settled_moved env m id (received m s) _ s
            (delivery_tied (with_orders s) id _ _ (found_order s id _ refl)
              (found_saga s id _ refl h))
            h)

    pub cancel_moved :
        (env : Env) (id customer : Key) (s : OrderStore)
        → OrdersTied s
        → OrdersMoved s (cancel_order db env id customer s).1
    cancel_moved env id customer s h =
        subst (λ o. OrdersMoved s o.1) (sym (cancel_order-requested db law env id customer s))
          (requested_moved env id _ s
            (cancel_reaction_tied (with_orders s) id customer _ _ (found_order s id _ refl)
              (found_saga s id _ refl h))
            h)

    place_cases :
        (env : Env) (input : PlaceOrderInput) (s : OrderStore) (g : Option SagaInstance)
        → saga_of (env.cuid s.drawn) s ≡ g
        → order_of (env.cuid s.drawn) s ≡ none
        → OrdersTied s
        → OrdersMoved s (place_order in_memory env input s).1
    place_cases env input s none no_saga fresh h =
        rw (place_work_lem env input s no_saga)
          (placed_moved env input (add_lines 0 input.lines) s fresh h)
    place_cases env input s (some g) held fresh h =
        rw (place_work_refused env input s g held) (stayed s h)

    pub place_moved :
        (env : Env) (input : PlaceOrderInput) (s : OrderStore)
        → order_of (env.cuid s.drawn) s ≡ none
        → OrdersTied s
        → OrdersMoved s (place_order db env input s).1
    place_moved env input s fresh h = rw (is_in_memory law) (place_cases env input s _ refl fresh h)

    heard_cases :
        (env : Env) (m : OutboxMessage) (s : OrderStore) (body : Payload)
        → m.payload ≡ body
        → Agrees (with_orders s) body
        → OrdersTied s
        → OrdersMoved s (orders_hear db env (some m) s)
    unfolding orders_hear saga_message order_consumer
    heard_cases env m s (Payload.reply_body r) e answer h =
        rw e (
          rw (acknowledged_state (on_reply db env m.id r s)) (on_reply_moved env m.id r s answer h))
    heard_cases env m s (Payload.delivered_body d) e answer h = rw e (
        rw (acknowledged_state (on_delivered db env m.id d.order_id s))
          (on_delivered_moved env m.id d.order_id s h))
    heard_cases env m s _ e answer h = rw e (stayed s h)

    -- The order service hears a message that agrees with what the services hold.
    pub heard_moved :
        (env : Env) (m : OutboxMessage) (s : OrderStore)
        → Agrees (with_orders s) m.payload
        → OrdersTied s
        → OrdersMoved s (orders_hear db env (some m) s)
    heard_moved env m s answer h = heard_cases env m s m.payload refl answer h
