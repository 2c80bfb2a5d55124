-- ===== src/Order/Consumer.antt =====
-- apps/order-service/src/order/order.consumer.ts: the messages of the queue order.saga.
use hotdrop_orchestration.Base.{Key, ◌≡◌, refl, sym, ◌∙◌, ap, subst, Bool, true, some}
use hotdrop_orchestration.Contracts.{SagaReply, DeliveryDeliveredEvent}
use hotdrop_orchestration.Result.{ok}
use hotdrop_orchestration.Prisma.{Prisma, Documented}
use hotdrop_orchestration.Messaging.{Env, InboxMessage}
use hotdrop_orchestration.Participant.Delivery.{acknowledged, acknowledged_ok, acknowledged_state}
use hotdrop_orchestration.Order.{OrderStore}
use hotdrop_orchestration.Order.Orchestrator.{on_reply, on_delivered}
use hotdrop_orchestration.Order.Orchestrator.Plan.{
  reply_reaction, delivery_reaction, settled, order_of, saga_of, received,
}
use hotdrop_orchestration.Order.Orchestrator.Refinement.{on_reply-settled, on_delivered-settled}
use hotdrop_orchestration.Order.Orchestrator.Safety.{settled_records}

pub data SagaMessage : Type 0 where
  a_reply : SagaReply → SagaMessage
  a_delivery : DeliveryDeliveredEvent → SagaMessage

-- The handler of a message, and whether it is acknowledged.
unfoldable pub order_consumer : Prisma → Env → Key → SagaMessage → OrderStore → Bool × OrderStore
order_consumer db env m (a_reply r) s = acknowledged (on_reply db env m r s)
order_consumer db env m (a_delivery e) s = acknowledged (on_delivered db env m e.order_id s)

module _ (db : Prisma) (law : Documented db) where
  known_again :
      (env : Env) (m : Key) (msg : SagaMessage) (s : OrderStore) (x : InboxMessage)
      → received m s ≡ some x
      → order_consumer db env m msg s ≡ (true, s)
  unfolding order_consumer acknowledged
  known_again env m (a_reply r) s x e = ap acknowledged (
      on_reply-settled db law env m r s
      ∙ ap
          (λ y.
            settled env m r.order_id y
              (reply_reaction r (order_of r.order_id s) (saga_of r.order_id s)) s)
          e)
  known_again env m (a_delivery d) s x e = ap acknowledged (
      on_delivered-settled db law env m d.order_id s
      ∙ ap
          (λ y.
            settled env m d.order_id y
              (delivery_reaction d.order_id (order_of d.order_id s) (saga_of d.order_id s)) s)
          e)

  handled-known :
      (env : Env) (m : Key) (msg : SagaMessage) (s : OrderStore)
      → (order_consumer db env m msg s).0 ≡ true
      → (x : InboxMessage) × (received m (order_consumer db env m msg s).1 ≡ some x)
  unfolding order_consumer
  handled-known env m (a_reply r) s acked =
      let o = on_reply db env m r s in
      let e = on_reply-settled db law env m r s in
      let (x, known) =
        settled_records env m r.order_id _ s (received m s) refl
          (subst (λ t. t.0 ≡ ok tt) e (acknowledged_ok o acked)) in
      (
        x,
        subst (λ t. received m t ≡ some x) (sym (acknowledged_state o))
            (subst (λ t. received m t.1 ≡ some x) (sym e) known),
      )
  handled-known env m (a_delivery d) s acked =
      let o = on_delivered db env m d.order_id s in
      let e = on_delivered-settled db law env m d.order_id s in
      let (x, known) =
        settled_records env m d.order_id _ s (received m s) refl
          (subst (λ t. t.0 ≡ ok tt) e (acknowledged_ok o acked)) in
      (
        x,
        subst (λ t. received m t ≡ some x) (sym (acknowledged_state o))
            (subst (λ t. received m t.1 ≡ some x) (sym e) known),
      )

  -- The broker delivers at least once: a reply or delivery event that the order service has
  -- acknowledged and that is delivered again at once, with any content, is acknowledged again and
  -- changes nothing.
  pub order_redelivery :
      (env later : Env) (m : Key) (msg again : SagaMessage) (s : OrderStore)
      → (order_consumer db env m msg s).0 ≡ true
      → let t = (order_consumer db env m msg s).1 in order_consumer db later m again t ≡ (true, t)
  order_redelivery env later m msg again s acked =
      let (x, known) = handled-known env m msg s acked in known_again later m again _ x known
