-- ===== src/Order/Orchestrator/Writes.antt =====
-- The writes of the orchestrator, one by one: what each leaves in the database.
use hotdrop_orchestration.Base.{
  Key, zero, ap, String, ◌≡◌, refl, sym, Option, none, some, List, [], ◌∷◌, ◌++◌, suc, ◌∙◌, arith,
  first, modify_first, ◌==◌, truthy, modify_first-const,
}
use hotdrop_orchestration.Contracts.{OrderStatus, OrderEvent, Payload, SagaCommand}
use hotdrop_orchestration.Result.{ok, Tx, ◌>>◌, >>-ok}
use hotdrop_orchestration.Prisma.{in_memory}
use hotdrop_orchestration.Messaging.{Env}
use hotdrop_orchestration.Order.{Order, SagaInstance, OrderStore}
use hotdrop_orchestration.Order.Orchestrator.{
  close_with, undo_acquired, emit_if, emit_void, emit_release, emit_unassign, update_order,
  update_saga, set_status,
}
use hotdrop_orchestration.Order.Orchestrator.Plan.{
  Message, planned, undone, give_up, ended, void_of, release_of, unassign_of, when_held, send,
  drawn_after, changed,
}

module _ (env : Env) (s : OrderStore) where
  pub update_order_lem :
      (id : Key) (f : Order → Order) (order : Order)
      → first (λ o. o.id == id) s.tables.orders ≡ some order
      → update_order in_memory env id f s
        ≡ ok (
          tt,
          record s {
            tables = record (s.tables) {
              orders = modify_first (λ o. o.id == id) f s.tables.orders;
            };
          },
        )
  unfolding update_order
  update_order_lem id f order h =
      ground (arith, modify_first-const (λ o. o.id == id) f s.tables.orders order h)

  pub update_saga_lem :
      (id : Key) (f : SagaInstance → SagaInstance) (saga : SagaInstance)
      → first (λ g. g.order_id == id) s.tables.sagas ≡ some saga
      → update_saga in_memory env id f s
        ≡ ok (
          tt,
          record s {
            tables = record (s.tables) {
              sagas = modify_first (λ g. g.order_id == id) f s.tables.sagas;
            };
          },
        )
  unfolding update_saga
  update_saga_lem id f saga h =
      ground (arith, modify_first-const (λ g. g.order_id == id) f s.tables.sagas saga h)

  pub set_status_lem :
      (order : Order) (status : OrderStatus)
      → first (λ o. o.id == order.id) s.tables.orders ≡ some order
      → set_status in_memory env order status s
        ≡ ok (
          tt,
          record s {
            tables = record (s.tables) {
              orders =
                  modify_first
                    (λ o. o.id == order.id)
                    (λ o. record o { status = status })
                    s.tables.orders;
            };
            outbox = send env s.drawn (changed order status ∷ []) s.outbox;
            drawn = suc s.drawn;
          },
        )
  unfolding set_status
  set_status_lem order status h =
      rw (update_order_lem order.id (λ o. record o { status = status }) order h, set_status, ◌>>◌)

module _ (env : Env) (s : OrderStore) (order : Order) (saga : SagaInstance)
    (found : first (λ o. o.id == order.id) s.tables.orders ≡ some order)
    (held : first (λ g. g.order_id == order.id) s.tables.sagas ≡ some saga) where
  -- The two row updates with which every transition begins.
  abbrev pub written : OrderStatus → (SagaInstance → SagaInstance) → OrderStore
  written status f = record s {
    tables = record {
      orders =
          modify_first (λ o. o.id == order.id) (λ o. record o { status = status }) s.tables.orders;
      sagas = modify_first (λ g. g.order_id == order.id) f s.tables.sagas;
    };
    outbox = send env s.drawn (changed order status ∷ []) s.outbox;
    drawn = suc s.drawn;
  }

  pub status_saga :
      (status : OrderStatus) (f : SagaInstance → SagaInstance)
      → (set_status in_memory env order status >> update_saga in_memory env order.id f) s
        ≡ ok (tt, written status f)
  status_saga status f =
      rw (set_status_lem env s order status found, ◌>>◌)
        (update_saga_lem env _ order.id f saga held)

  pub status_saga_then :
      (status : OrderStatus) (f : SagaInstance → SagaInstance) (k : Tx OrderStore (Unit {0}))
      → (set_status in_memory env order status >> (update_saga in_memory env order.id f >> k)) s
        ≡ k (written status f)
  status_saga_then status f k =
      >>-ok (set_status in_memory env order status) (update_saga in_memory env order.id f >> k) s
        (set_status_lem env s order status found)
      ∙ >>-ok (update_saga in_memory env order.id f) k _
          (update_saga_lem env _ order.id f saga held)

  -- The three writes that end an order unhappily.
  pub close_lem :
      (status : OrderStatus) (event : OrderEvent) (reason : String)
      → close_with in_memory env order status event reason s
        ≡ ok (
          tt,
          planned env order.id
              (record {
                status = status;
                saga = give_up order reason;
                messages = changed order status ∷ ended order event reason ∷ [];
              })
              s,
        )
  unfolding close_with
  close_lem status event reason = status_saga_then _ _ _

abbrev pub sent : Env → List Message → OrderStore → OrderStore
sent env ms s = record s { outbox = send env s.drawn ms s.outbox; drawn = drawn_after s.drawn ms }

pub sent-append :
    (env : Env) (xs ys : List Message) (s : OrderStore)
    → sent env (xs ++ ys) s ≡ sent env ys (sent env xs s)
sent-append env [] ys s = refl
sent-append env (x ∷ xs) ys s = sent-append env xs ys (sent env (x ∷ []) s)

module _ (env : Env) (order : Order) (saga : SagaInstance) where
  pub emit_if_lem :
      (id : Option Key) (c : SagaCommand) (body : Key → Payload) (s : OrderStore)
      → emit_if in_memory env id c body s ≡ ok (tt, sent env (when_held order (truthy id) c body) s)
  unfolding emit_if
  emit_if_lem none c body s = refl
  emit_if_lem (some zero) c body s = refl
  emit_if_lem (some (suc k)) c body s = refl

  pub emit_void_lem :
      (s : OrderStore)
      → emit_void in_memory env order saga s ≡ ok (tt, sent env (void_of order saga.payment_id) s)
  unfolding emit_void
  emit_void_lem s = emit_if_lem _ _ _ s

  pub emit_release_lem :
      (s : OrderStore)
      → emit_release in_memory env order saga s
        ≡ ok (tt, sent env (release_of order saga.reservation_id) s)
  unfolding emit_release
  emit_release_lem s = emit_if_lem _ _ _ s

  pub emit_unassign_lem :
      (s : OrderStore)
      → emit_unassign in_memory env order saga s
        ≡ ok (tt, sent env (unassign_of order saga.assignment_id) s)
  unfolding emit_unassign
  emit_unassign_lem s = emit_if_lem _ _ _ s

  pub undo_acquired_lem :
      (s : OrderStore)
      → undo_acquired in_memory env order saga s ≡ ok (tt, sent env (undone order saga) s)
  unfolding undo_acquired
  undo_acquired_lem s =
      >>-ok (emit_unassign in_memory env order saga)
        (emit_void in_memory env order saga >> emit_release in_memory env order saga) s
        (emit_unassign_lem s)
      ∙ >>-ok (emit_void in_memory env order saga) (emit_release in_memory env order saga) _
          (emit_void_lem _)
      ∙ emit_release_lem _
      ∙ ap (λ t. ok (tt, t))
          (sym (
            sent-append env (unassign_of order saga.assignment_id ++ void_of order saga.payment_id)
              (release_of order saga.reservation_id) s
            ∙ ap (sent env (release_of order saga.reservation_id)) (
                sent-append env (unassign_of order saga.assignment_id)
                  (void_of order saga.payment_id) s)))

  pub void_release_lem :
      {A : Type 0} (k : Tx OrderStore A) (s : OrderStore)
      → (emit_void in_memory env order saga >> (emit_release in_memory env order saga >> k)) s
        ≡ k (sent env (void_of order saga.payment_id ++ release_of order saga.reservation_id) s)
  void_release_lem k s =
      >>-ok (emit_void in_memory env order saga) (emit_release in_memory env order saga >> k) s
        (emit_void_lem s)
      ∙ >>-ok (emit_release in_memory env order saga) k _ (emit_release_lem _)
      ∙ ap k (
          sym (
            sent-append env (void_of order saga.payment_id) (release_of order saga.reservation_id)
              s))
