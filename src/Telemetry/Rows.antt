-- ===== src/Telemetry/Rows.antt =====
-- The rows that the handlers of the four services write carry the trace context that they read.
use hotdrop_orchestration.Base.{
  Key, ℕ, suc, ◌≡◌, refl, sym, ◌∙◌, ap, subst, Option, none, some, List, [], ◌∷◌, ◌++◌, All,
  append-nil, append_assoc,
}
use hotdrop_orchestration.Contracts.{SagaReply, Payload, saga_reply}
use hotdrop_orchestration.Result.{Result, ok, err, step_failure}
use hotdrop_orchestration.Prisma.{Prisma, Documented}
use hotdrop_orchestration.Messaging.{
  Env, Store, OutboxMessage, InboxMessage, outbox_row, create_outbox_message,
}
use hotdrop_orchestration.Participant.Consume as Consume
use hotdrop_orchestration.Participant.Delivery.{acknowledged, acknowledged_state}
use hotdrop_orchestration.Order.{OrderStore}
use hotdrop_orchestration.Order.Orchestrator.{on_reply, on_delivered}
use hotdrop_orchestration.Order.Orchestrator.Plan.{
  Message, Reaction, ignored, carried_out, refused, settled, send, received, reply_reaction,
  delivery_reaction, order_of, saga_of,
}
use hotdrop_orchestration.Order.Orchestrator.Refinement.{on_reply-settled, on_delivered-settled}
use hotdrop_orchestration.Order.Consumer.{SagaMessage, a_reply, a_delivery, order_consumer}

-- The rows of the outbox after a call are those before it and new ones, of which a predicate holds.
abbrev pub Writes : {D : Type 0} → (OutboxMessage → Type 0) → Store D → Store D → Type 0
Writes P s t = (new : List OutboxMessage) × (t.outbox ≡ s.outbox ++ new) × All P new

abbrev pub Carries : Env → OutboxMessage → Type 0
Carries env row = row.traceparent ≡ env.active_trace

rows : Env → ℕ → List Message → List OutboxMessage
rows env n [] = []
rows env n ((type, body) ∷ ms) =
    outbox_row env (create_outbox_message env n type body) ∷ rows env (suc n) ms

send-rows :
    (env : Env) (n : ℕ) (ms : List Message) (out : List OutboxMessage)
    → send env n ms out ≡ out ++ rows env n ms
unfolding rows
send-rows env n [] out = sym (append-nil out)
send-rows env n ((type, body) ∷ ms) out = send-rows env (suc n) ms _ ∙ append_assoc out _ _

rows-Carries : (env : Env) (n : ℕ) (ms : List Message) → All (Carries env) (rows env n ms)
unfolding rows outbox_row create_outbox_message
rows-Carries env n [] = tt
rows-Carries env n ((type, body) ∷ ms) = (refl, rows-Carries env (suc n) ms)

pub Writes-nothing : {D : Type 0} {P : OutboxMessage → Type 0} (s : Store D) → Writes P s s
Writes-nothing s = ([], sym (append-nil s.outbox), tt)

settled-Writes :
    (env : Env) (m id : Key) (known : Option InboxMessage) (r : Reaction) (s : OrderStore)
    → Writes (Carries env) s (settled env m id known r s).1
settled-Writes env m id (some x) r s = Writes-nothing s
settled-Writes env m id none ignored s = Writes-nothing s
settled-Writes env m id none (refused e) s = Writes-nothing s
settled-Writes env m id none (carried_out plan) s = (
  rows env s.drawn plan.messages,
  send-rows env s.drawn plan.messages s.outbox,
  rows-Carries env s.drawn plan.messages,
)

pub order_consumer-Writes :
    (db : Prisma)
    → Documented db
    → (env : Env) (m : Key) (msg : SagaMessage) (s : OrderStore)
    → Writes (Carries env) s (order_consumer db env m msg s).1
unfolding order_consumer
order_consumer-Writes db law env m (a_reply r) s =
    subst (Writes (Carries env) s)
      (sym (
        acknowledged_state (on_reply db env m r s)
        ∙ ap (λ o. o.1) (on_reply-settled db law env m r s)))
      (settled-Writes env m r.order_id (received m s)
        (reply_reaction r (order_of r.order_id s) (saga_of r.order_id s)) s)
order_consumer-Writes db law env m (a_delivery d) s =
    subst (Writes (Carries env) s)
      (sym (
        acknowledged_state (on_delivered db env m d.order_id s)
        ∙ ap (λ o. o.1) (on_delivered-settled db law env m d.order_id s)))
      (settled-Writes env m d.order_id (received m s)
        (delivery_reaction d.order_id (order_of d.order_id s) (saga_of d.order_id s)) s)

-- A command's work leaves the outbox alone.
abbrev pub KeepsOutbox : {D : Type 0} → Store D → Result (Option SagaReply × Store D) → Type 0
KeepsOutbox s (ok (reply, t)) = t.outbox ≡ s.outbox
KeepsOutbox s (err e) = Unit

module _ {D : Type 0} (env : Env) (m : Key) (s : Store D) where
  abbrev answer_row : ℕ → SagaReply → OutboxMessage
  answer_row n reply =
      outbox_row env (create_outbox_message env n saga_reply (Payload.reply_body reply))

  -- A participant writes its answer, and nothing else.
  command-Writes :
      (known : Option InboxMessage) (out : Result (Option SagaReply × Store D))
      → KeepsOutbox s out
      → Writes (Carries env) s (Consume.settled env m known out s).1
  unfolding outbox_row create_outbox_message
  command-Writes (some x) out kept = Writes-nothing s
  command-Writes none (ok (none, t)) kept = ([], kept ∙ sym (append-nil s.outbox), tt)
  command-Writes none (ok (some reply, t)) kept = (
    answer_row t.drawn reply ∷ [],
    ap (λ out. out ++ answer_row t.drawn reply ∷ []) kept,
    (refl, tt),
  )
  command-Writes none (err (step_failure reply)) kept =
      (answer_row s.drawn reply ∷ [], refl, (refl, tt))
  command-Writes none (err _) kept = Writes-nothing s

  -- So does the handler that carries the command out.
  pub handler-Writes :
      (o : Result (Unit {0}) × Store D) (out : Result (Option SagaReply × Store D))
      → o ≡ Consume.settled env m (Consume.received m s) out s
      → KeepsOutbox s out
      → Writes (Carries env) s (acknowledged o).1
  handler-Writes o out e kept =
      subst (Writes (Carries env) s) (sym (acknowledged_state o ∙ ap (λ x. x.1) e))
        (command-Writes (Consume.received m s) out kept)
