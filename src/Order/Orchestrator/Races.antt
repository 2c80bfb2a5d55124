-- ===== src/Order/Orchestrator/Races.antt =====
-- A cancellation that overtakes the reply of a step under way.
use hotdrop_orchestration.Base.{
  Key, ◌≡◌, refl, ◌∙◌, true, false, Option, none, some, [], ◌∷◌, ◌++◌, arith, ap, ◌==◌, truthy,
  first-modify_first_self,
}
use hotdrop_orchestration.Contracts.{OrderStatus, OrderEvent, SagaReply}
use hotdrop_orchestration.Result.{ok}
use hotdrop_orchestration.Prisma.{Prisma, Documented}
use hotdrop_orchestration.Messaging.{Env}
use hotdrop_orchestration.Order.{Order, SagaInstance, OrderStore}
use hotdrop_orchestration.Order.Orchestrator.{
  is_terminal, is_cancelled, is_cancellable, on_reply, cancel_order,
}
use hotdrop_orchestration.Order.Orchestrator.Plan.{
  carried_out, ignored, received, order_of, saga_of, settled, requested, planned, reply_reaction,
  cancel_reaction, cancel_plan, with_inbox, send, release_of, changed, ended,
}
use hotdrop_orchestration.Order.Orchestrator.Refinement.{on_reply-settled, cancel_order-requested}

cancellable_open :
    (status : OrderStatus) → is_cancellable status ≡ true → is_cancelled status ≡ false
unfolding is_cancellable is_cancelled
cancellable_open OrderStatus.placed e = refl
cancellable_open OrderStatus.portions_reserved e = refl
cancellable_open OrderStatus.payment_authorized e = refl
cancellable_open _ e = cc

early_reaction :
    (id customer : Key) (o : Order) (g : SagaInstance)
    → o.customer_id ≡ customer
    → is_cancellable o.status ≡ true
    → cancel_reaction id customer (some o) (some g) ≡ carried_out (cancel_plan o g)
early_reaction id customer o g own early = ground (arith, cancellable_open o.status)

ended_reaction :
    (r : SagaReply) (o : Order) (g : Option SagaInstance)
    → is_terminal o.status ≡ true
    → reply_reaction r (some o) g ≡ ignored
ended_reaction r o none over = refl
ended_reaction r o (some g) over = rw over

module _ (db : Prisma) (law : Documented db) where
  -- The order's row after a cancellation that goes through, and the rest of the database.
  cancel_early :
      (env : Env) (id customer : Key) (s : OrderStore) (o : Order) (g : SagaInstance)
      → order_of id s ≡ some o
      → saga_of id s ≡ some g
      → o.customer_id ≡ customer
      → is_cancellable o.status ≡ true
      → cancel_order db env id customer s ≡ (ok tt, planned env id (cancel_plan o g) s)
  cancel_early env id customer s o g found held own early =
      cancel_order-requested db law env id customer s
      ∙ rw (found, held) (ap (λ r. requested env id r s) (early_reaction id customer o g own early))

  -- A new reply for an order that has ended is recorded and changes nothing else.
  ended_ignores :
      (env : Env) (m : Key) (r : SagaReply) (s : OrderStore) (o : Order)
      → order_of r.order_id s ≡ some o
      → is_terminal o.status ≡ true
      → received m s ≡ none
      → on_reply db env m r s ≡ (ok tt, with_inbox env m s)
  ended_ignores env m r s o found over new =
      on_reply-settled db law env m r s
      ∙ rw (new, found)
          (ap (λ x. settled env m r.order_id none x s)
            (ended_reaction r o (saga_of r.order_id s) over))

-- A customer cancels while the payment step is under way, so that the saga row holds no payment. The
-- cancellation goes through and sends no VoidPayment; the reply that then brings the payment's id is
-- recorded and answered by no message, so nothing voids the hold.
pub authorization_after_cancel :
    (db : Prisma)
    → Documented db
    → (env later : Env) (customer m : Key) (r : SagaReply) (s : OrderStore) (o : Order)
      (g : SagaInstance)
    → order_of r.order_id s ≡ some o
    → saga_of r.order_id s ≡ some g
    → o.customer_id ≡ customer
    → is_cancellable o.status ≡ true
    → truthy g.payment_id ≡ none
    → received m s ≡ none
    → let (result, t) = cancel_order db env r.order_id customer s in
      (result ≡ ok tt)
      × (t.outbox
          ≡ send env s.drawn
              (release_of o g.reservation_id
                ++ (changed o OrderStatus.cancelled
                    ∷ ended o OrderEvent.cancelled "CANCELLED_BY_CUSTOMER"
                    ∷ []))
              s.outbox)
      × (on_reply db later m r t ≡ (ok tt, with_inbox later m t))
unfolding is_terminal
authorization_after_cancel db law env later customer m r s o g found held own early no_payment new =
    let e = cancel_early db law env r.order_id customer s o g found held own early in
    rw e (
      refl,
      rw no_payment,
      ended_ignores db law later m r _ (record o { status = OrderStatus.cancelled })
          (first-modify_first_self (λ x. x.id == r.order_id)
            (λ x. record x { status = OrderStatus.cancelled }) s.tables.orders o (λ x. refl) found)
          refl new,
    )
