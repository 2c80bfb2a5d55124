-- ===== src/Order/Orchestrator/Worked.antt =====
-- What the work of each handler of the orchestrator does inside its transaction, as a plan.
use hotdrop_orchestration.Base.{
  Key, String, ◌≡◌, refl, sym, subst, Option, none, some, List, [], ◌∷◌, ◌++◌, ◌∙◌, ap, arith,
  first, modify_first, ◌==◌, ==_iff, first_holds,
}
use hotdrop_orchestration.Contracts.{
  OrderStatus, SagaReply, SagaStep, ReplyStatus, OrderEvent, ReplyData, ok_status, failed_status,
}
use hotdrop_orchestration.Result.{Result, ok, err, Error, type_error, Tx, ◌>>◌, >>-ok}
use hotdrop_orchestration.Prisma.{in_memory}
use hotdrop_orchestration.Messaging.{Env, InboxMessage}
use hotdrop_orchestration.Order.{Order, SagaInstance, OrderStore}
use hotdrop_orchestration.Order.Orchestrator.{
  capture, cancel_now, reply_to, compensate_step, compensate, consume, close_with, reason_of,
  undo_acquired, advance_step, advance,
}
use hotdrop_orchestration.Order.Orchestrator.Plan.{
  Plan, Message, Reaction, ignored, carried_out, refused, received, order_of, saga_of, settled,
  planned, planned_or_refused, capture_plan, cancel_plan, void_of, release_of, undone, give_up,
  ended, backward, plan_of, forward, changed,
}
use hotdrop_orchestration.Order.Orchestrator.Writes.{
  status_saga, status_saga_then, close_lem, sent, sent-append, undo_acquired_lem, void_release_lem,
}

-- What the work of a handler does, inside the transaction.
abbrev pub worked : Env → Key → Reaction → OrderStore → Result (Unit {0} × OrderStore)
worked env id ignored s = ok (tt, s)
worked env id (carried_out plan) s = ok (tt, planned env id plan s)
worked env id (refused e) s = err e

abbrev advanced : Env → Key → Option Plan → OrderStore → Result (Unit {0} × OrderStore)
advanced env id none s = err type_error
advanced env id (some plan) s = ok (tt, planned env id plan s)

module _ (env : Env) (s : OrderStore) (order : Order) (saga : SagaInstance)
    (found : first (λ o. o.id == order.id) s.tables.orders ≡ some order)
    (held : first (λ g. g.order_id == order.id) s.tables.sagas ≡ some saga) where
  advance_step_lem :
      (reply : SagaReply) (step : SagaStep) (d : Option ReplyData)
      → reply.result ≡ d
      → advance_step in_memory env order reply step s
        ≡ advanced env order.id (forward order step d) s
  unfolding advance_step
  advance_step_lem reply SagaStep.accept_order d e =
      status_saga_then env s order saga found held _ _ _
  advance_step_lem reply SagaStep.capture_payment d e =
      status_saga_then env s order saga found held _ _ _
  advance_step_lem reply _ none e = rw e
  advance_step_lem reply SagaStep.assign_courier (some d) e =
      rw e (status_saga env s order saga found held _ _)
  advance_step_lem reply _ (some d) e = rw e (status_saga_then env s order saga found held _ _ _)

  -- After messages `ms`, the closing writes make the plan that sends `ms` first.
  close_after :
      (ms : List Message) (status : OrderStatus) (event : OrderEvent) (reason : String)
      → close_with in_memory env order status event reason (sent env ms s)
        ≡ ok (
          tt,
          planned env order.id
              (record {
                status = status;
                saga = give_up order reason;
                messages = ms ++ (changed order status ∷ ended order event reason ∷ []);
              })
              s,
        )
  close_after ms status event reason =
      close_lem env (sent env ms s) order saga found held status event reason
      ∙ ap (λ t. ok (tt, t))
          (sym (
            sent-append env ms (changed order status ∷ ended order event reason ∷ []) (record s {
              tables = record {
                orders =
                    modify_first (λ o. o.id == order.id) (λ o. record o { status = status })
                      s.tables.orders;
                sagas =
                    modify_first (λ g. g.order_id == order.id) (give_up order reason)
                      s.tables.sagas;
              };
            })))

  undo_close :
      (reason : String)
      → (undo_acquired in_memory env order saga
            >> close_with in_memory env order OrderStatus.cancelled OrderEvent.cancelled reason)
          s
        ≡ ok (tt, planned env order.id (backward order saga reason SagaStep.accept_order) s)
  undo_close reason =
      >>-ok (undo_acquired in_memory env order saga)
        (close_with in_memory env order OrderStatus.cancelled OrderEvent.cancelled reason) s
        (undo_acquired_lem env order saga s)
      ∙ close_after (undone order saga) OrderStatus.cancelled OrderEvent.cancelled reason

  compensate_step_lem :
      (reason : String) (step : SagaStep)
      → compensate_step in_memory env order saga reason step s
        ≡ ok (tt, planned env order.id (backward order saga reason step) s)
  unfolding compensate_step
  compensate_step_lem reason SagaStep.reserve_portions = close_lem env s order saga found held _ _ _
  compensate_step_lem reason _ = undo_close reason

  reply_to_lem :
      (reply : SagaReply) (status : ReplyStatus)
      → reply_to in_memory env order saga reply status s
        ≡ advanced env order.id (plan_of order saga reply status) s
  unfolding reply_to advance compensate
  reply_to_lem reply ok_status = advance_step_lem reply reply.step reply.result refl
  reply_to_lem reply failed_status = compensate_step_lem (reason_of reply.reason) reply.step

module _ (env : Env) (message_id : Key) (work : Tx OrderStore (Unit {0})) (s : OrderStore)
    (new : first (λ m. m.message_id == message_id) s.inbox ≡ none) where
  consume_ok :
      (t : OrderStore)
      → work s ≡ ok (tt, t)
      → t.inbox ≡ s.inbox
      → consume in_memory env message_id work s ≡ (
        ok tt,
        record t {
          inbox = s.inbox ++ record { message_id = message_id; processed_at = env.now } ∷ [];
        },
      )
  unfolding consume
  consume_ok t e same = ground arith

  consume_err : (x : Error) → work s ≡ err x → consume in_memory env message_id work s ≡ (err x, s)
  unfolding consume
  consume_err x e = ground arith

module _ (env : Env) (message_id : Key) (work : Tx OrderStore (Unit {0})) (s : OrderStore) where
  -- What a handler does, from what its work does on a message that is new.
  pub consume-settled :
      (id : Key) (seen : Option InboxMessage) (r : Reaction)
      → received message_id s ≡ seen
      → work s ≡ worked env id r s
      → consume in_memory env message_id work s ≡ settled env message_id id seen r s
  unfolding consume
  consume-settled id (some m) r seen done = ground arith
  consume-settled id none ignored new done = consume_ok env message_id work s new s done refl
  consume-settled id none (carried_out plan) new done =
      consume_ok env message_id work s new (planned env id plan s) done refl
  consume-settled id none (refused e) new done = consume_err env message_id work s new e done

-- The row that a look-up finds has the key that was looked up.
order_of_key :
    (id : Key) (s : OrderStore) (order : Order) → order_of id s ≡ some order → order.id ≡ id
order_of_key id s order e =
    (==_iff order.id id).0 (first_holds (λ o. o.id == id) s.tables.orders order e)

module _ (env : Env) (s : OrderStore) (order : Order) (saga : SagaInstance) (id : Key)
    (found : order_of id s ≡ some order) (held : saga_of id s ≡ some saga) where
  -- A statement at the key of the row that was found holds at the key that was looked up.
  at_key :
      (P : Key → Type 0)
      → (order_of order.id s ≡ some order → saga_of order.id s ≡ some saga → P order.id)
      → P id
  at_key P h =
      let e = order_of_key id s order found in
      subst P e (
        h (subst (λ k. order_of k s ≡ some order) (sym e) found)
          (subst (λ k. saga_of k s ≡ some saga) (sym e) held))

  pub reply_to-worked :
      (reply : SagaReply) (status : ReplyStatus) (p : Option Plan)
      → plan_of order saga reply status ≡ p
      → reply_to in_memory env order saga reply status s ≡ worked env id (planned_or_refused p) s
  reply_to-worked reply status none e =
      at_key (λ k. reply_to in_memory env order saga reply status s ≡ err type_error)
        λ f h. rw (reply_to_lem env s order saga f h reply status, e)
  reply_to-worked reply status (some p) e =
      at_key (λ k. reply_to in_memory env order saga reply status s ≡ ok (tt, planned env k p s))
        λ f h. rw (reply_to_lem env s order saga f h reply status, e)

  pub capture-worked :
      (payment_id : Key)
      → capture in_memory env id order payment_id s
        ≡ worked env id (capture_plan id order (some payment_id)) s
  unfolding capture
  capture-worked payment_id =
      at_key
        (λ k.
          capture in_memory env k order payment_id s
          ≡ worked env k (capture_plan k order (some payment_id)) s)
        λ f h. status_saga_then env s order saga f h _ _ _

  pub cancel_now_worked :
      cancel_now in_memory env order saga s ≡ ok (tt, planned env id (cancel_plan order saga) s)
  unfolding cancel_now
  cancel_now_worked =
      at_key
        (λ k.
          cancel_now in_memory env order saga s ≡ ok (tt, planned env k (cancel_plan order saga) s))
        λ f h.
          void_release_lem env order saga
            (close_with in_memory env order OrderStatus.cancelled OrderEvent.cancelled
              "CANCELLED_BY_CUSTOMER")
            s
          ∙ close_after env s order saga f h
              (void_of order saga.payment_id ++ release_of order saga.reservation_id)
              OrderStatus.cancelled OrderEvent.cancelled "CANCELLED_BY_CUSTOMER"
