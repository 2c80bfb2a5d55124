-- ===== src/Saga/Completion/Orders.antt =====
-- The order service's side of an order that goes well: where it stands, and the rows that it writes.
use hotdrop_orchestration.Base.{
  Key, ℕ, suc, ◌≡◌, refl, ◌∙◌, ap, false, none, some, List, [], ◌∷◌, ◌++◌, All, ◌==◌, first,
  first-modify_first_self,
}
use hotdrop_orchestration.Contracts.{Payload, SagaReply, MessageType}
use hotdrop_orchestration.Prisma.{in_memory, in_memory-Documented}
use hotdrop_orchestration.Messaging.{
  Env, OutboxMessage, InboxMessage, outbox_row, create_outbox_message,
}
use hotdrop_orchestration.Participant.Delivery.{acknowledged_state}
use hotdrop_orchestration.Order.{Order, SagaInstance, OrderStore}
use hotdrop_orchestration.Order.Orchestrator.{on_delivered}
use hotdrop_orchestration.Order.Consumer.{order_consumer, a_delivery}
use hotdrop_orchestration.Order.Orchestrator.Plan.{
  Message, Plan, carried_out, reply_reaction, delivery_reaction, received, order_of, saga_of, send,
  drawn_after, with_inbox, planned, settled,
}
use hotdrop_orchestration.Order.Orchestrator.Journey.{first-append_none}
use hotdrop_orchestration.Order.Orchestrator.Refinement.{on_delivered-settled}
use hotdrop_orchestration.Saga.{orders_hear, saga_message}
use hotdrop_orchestration.Saga.Answers.{orders_state}
use hotdrop_orchestration.Saga.System.{IsRow, newest, older}

-- The messages' ids are new to an inbox, and no two are the same.
abbrev pub AreNew : List Key → List InboxMessage → Type 0
AreNew [] inbox = Unit
AreNew (k ∷ ks) inbox =
    (first (λ (m : InboxMessage). m.message_id == k) inbox ≡ none)
    × All (λ j. (k == j) ≡ false) ks
    × AreNew ks inbox

pub IsRow-last : (ms : List OutboxMessage) (m : OutboxMessage) → IsRow m (ms ++ m ∷ [])
IsRow-last [] m = newest
IsRow-last (x ∷ ms) m = older (IsRow-last ms m)

pub append-IsRow :
    {m : OutboxMessage} {ms : List OutboxMessage} (more : List OutboxMessage)
    → IsRow m ms
    → IsRow m (ms ++ more)
append-IsRow more newest = newest
append-IsRow more (older r) = older (append-IsRow more r)

pub send-IsRow :
    {m : OutboxMessage} (env : Env) (n : ℕ) (ms : List Message) (out : List OutboxMessage)
    → IsRow m out
    → IsRow m (send env n ms out)
send-IsRow env n [] out r = r
send-IsRow env n ((type, body) ∷ ms) out r = send-IsRow env (suc n) ms _ (append-IsRow _ r)

-- The row of a message.
abbrev pub row_of : Env → ℕ → MessageType → Payload → OutboxMessage
row_of env n type body = outbox_row env (create_outbox_message env n type body)

known_later :
    (k m : Key) (at : ℕ) (inbox : List InboxMessage) (ks : List Key)
    → All (λ j. (m == j) ≡ false) ks
    → AreNew ks inbox
    → AreNew ks (inbox ++ record { message_id = m; processed_at = at } ∷ [])
known_later k m at inbox [] apart h = tt
known_later k m at inbox (j ∷ ks) apart h = (
  first-append_none (λ (x : InboxMessage). x.message_id == j) inbox
      (record { message_id = m; processed_at = at }) h.0 apart.0,
  h.1,
  known_later k m at inbox ks apart.1 h.2,
)

pub AreNew-tail :
    (m : Key) (at : ℕ) (inbox : List InboxMessage) (ks : List Key)
    → AreNew (m ∷ ks) inbox
    → AreNew ks (inbox ++ record { message_id = m; processed_at = at } ∷ [])
AreNew-tail m at inbox ks h = known_later m m at inbox ks h.1 h.2

-- Where the order stands, the messages that are to come, and how many ids were drawn.
pub record Ready (id : Key) (ks : List Key) (n : ℕ) (o : Order) (g : SagaInstance) (s : OrderStore)
    : Type 0 where
  pub order_row : order_of id s ≡ some o
  pub saga_row : saga_of id s ≡ some g
  pub unseen : AreNew ks s.inbox
  pub drawn_lem : s.drawn ≡ n

module _ (env : Env) (id : Key) where
  -- The store after a plan was carried out for a message.
  abbrev pub moved_on : Key → Plan → OrderStore → OrderStore
  moved_on m plan s = with_inbox env m (planned env id plan s)

  pub planned-Ready :
      (m : Key) (ks : List Key) (n : ℕ) (o : Order) (g : SagaInstance) (s : OrderStore)
      (plan : Plan)
      → ((x : SagaInstance) → (plan.saga x).order_id ≡ x.order_id)
      → Ready id (m ∷ ks) n o g s
      → Ready id ks
          (drawn_after n plan.messages)
          (record o { status = plan.status })
          (plan.saga g)
          (moved_on m plan s)
  planned-Ready m ks n o g s plan same r = record {
    order_row =
        first-modify_first_self (λ x. x.id == id) (λ x. record x { status = plan.status })
          s.tables.orders o (λ x. refl) r.order_row;
    saga_row =
        first-modify_first_self (λ x. x.order_id == id) plan.saga s.tables.sagas g
          (λ x. rw (same x) refl) r.saga_row;
    unseen = AreNew-tail m env.now s.inbox ks r.unseen;
    drawn_lem = ap (λ k. drawn_after k plan.messages) r.drawn_lem;
  }

  pub reply_moves :
      (m : OutboxMessage) (r : SagaReply) (ks : List Key) (n : ℕ) (o : Order) (g : SagaInstance)
      (s : OrderStore) (plan : Plan)
      → m.payload ≡ Payload.reply_body (record r { order_id = id })
      → Ready id (m.id ∷ ks) n o g s
      → reply_reaction (record r { order_id = id }) (some o) (some g) ≡ carried_out plan
      → orders_hear in_memory env (some m) s ≡ moved_on m.id plan s
  reply_moves m r ks n o g s plan body ready e =
      orders_state env m (record r { order_id = id }) s o g plan body ready.unseen.0 ready.order_row
        ready.saga_row e

  pub delivery_moves :
      (m : OutboxMessage) (ks : List Key) (n : ℕ) (o : Order) (g : SagaInstance) (s : OrderStore)
      (plan : Plan)
      → m.payload ≡ Payload.delivered_body (record { order_id = id })
      → Ready id (m.id ∷ ks) n o g s
      → delivery_reaction id (some o) (some g) ≡ carried_out plan
      → orders_hear in_memory env (some m) s ≡ moved_on m.id plan s
  unfolding orders_hear saga_message order_consumer
  delivery_moves m ks n o g s plan body ready e =
      let heard : orders_hear in_memory env (some m) s
          ≡ (order_consumer in_memory env m.id (a_delivery (record { order_id = id })) s).1 =
        rw body in
      let outcome : (settled env m.id id (received m.id s)
            (delivery_reaction id (order_of id s) (saga_of id s)) s).1
          ≡ moved_on m.id plan s =
        rw (ready.unseen.0, ready.order_row, ready.saga_row, e) in
      heard
      ∙ acknowledged_state (on_delivered in_memory env m.id id s)
      ∙ ap (λ x. x.1) (on_delivered-settled in_memory in_memory-Documented env m.id id s)
      ∙ outcome

  -- Where the order stands once a message was acted on, and the outbox then.
  abbrev pub MovesOn :
      OutboxMessage → List Key → ℕ → Order → SagaInstance → OrderStore → Plan → Type 0
  MovesOn m ks n o g s plan =
      let t = orders_hear in_memory env (some m) s in
      Ready id ks (drawn_after n plan.messages) (record o { status = plan.status }) (plan.saga g) t
      × (t.outbox ≡ send env n plan.messages s.outbox)

  module _ (m : OutboxMessage) (ks : List Key) (n : ℕ) (o : Order) (g : SagaInstance)
      (s : OrderStore) (plan : Plan)
      (same : (x : SagaInstance) → (plan.saga x).order_id ≡ x.order_id)
      (ready : Ready id (m.id ∷ ks) n o g s) where
    moves : orders_hear in_memory env (some m) s ≡ moved_on m.id plan s → MovesOn m ks n o g s plan
    moves e = rw e (
      planned-Ready m.id ks n o g s plan same ready,
      ap (λ k. send env k plan.messages s.outbox) ready.drawn_lem,
    )

    pub answered_moves :
        (r : SagaReply)
        → m.payload ≡ Payload.reply_body (record r { order_id = id })
        → reply_reaction (record r { order_id = id }) (some o) (some g) ≡ carried_out plan
        → MovesOn m ks n o g s plan
    answered_moves r body e = moves (reply_moves m r ks n o g s plan body ready e)

    pub delivered_moves :
        m.payload ≡ Payload.delivered_body (record { order_id = id })
        → delivery_reaction id (some o) (some g) ≡ carried_out plan
        → MovesOn m ks n o g s plan
    delivered_moves body e = moves (delivery_moves m ks n o g s plan body ready e)

-- The row of the second message of a plan, and of the third.
pub second_sent :
    (env : Env) (n : ℕ) (a b : Message) (ms : List Message) (out : List OutboxMessage)
    → IsRow (row_of env (suc n) b.0 b.1) (send env n (a ∷ b ∷ ms) out)
second_sent env n (t, x) (u, y) ms out = send-IsRow env (suc (suc n)) ms _ (IsRow-last _ _)

pub third_sent :
    (env : Env) (n : ℕ) (a b c : Message) (ms : List Message) (out : List OutboxMessage)
    → IsRow (row_of env (suc (suc n)) c.0 c.1) (send env n (a ∷ b ∷ c ∷ ms) out)
third_sent env n (t, x) (u, y) (v, z) ms out =
    send-IsRow env (suc (suc (suc n))) ms _ (IsRow-last _ _)
