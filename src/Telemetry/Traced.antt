-- ===== src/Telemetry/Traced.antt =====
-- The rows that the services write for a message are of the message's trace.
use Prim.Native.String.{len}
use hotdrop_orchestration.Base.{
  Key, suc, String, false, ◌≡◌, refl, ◌∙◌, some, List, [], ◌∷◌, ◌++◌, All, ◌==◌,
}
use hotdrop_orchestration.Contracts.{SagaStep}
use hotdrop_orchestration.Prisma.{Prisma, Documented}
use hotdrop_orchestration.Messaging.{Env, Store, MessageEnvelope, OutboxMessage}
use hotdrop_orchestration.Saga.System.{System}
use hotdrop_orchestration.Telemetry.{
  OpenTelemetry, Propagates, Spans, QueueMessage, for_orders, for_kitchen, for_payment,
  for_dispatch, handled, run_with_traceparent, in_context, span_of, traced_consumer,
}
use hotdrop_orchestration.Telemetry.Rows.{Writes, Carries, Writes-nothing, order_consumer-Writes}
use hotdrop_orchestration.Telemetry.Commands.{
  kitchen_consumer-Writes, payment_consumer-Writes, dispatch_consumer-Writes,
}

handled-Writes :
    (db : Prisma)
    → Documented db
    → (env : Env) (m : Key) (msg : QueueMessage) (s : System)
    → let t = (handled db env m msg s).1 in
      Writes (Carries env) s.orders t.orders
      × Writes (Carries env) s.kitchen t.kitchen
      × Writes (Carries env) s.payment t.payment
      × Writes (Carries env) s.dispatch t.dispatch
unfolding handled
handled-Writes db law env m (for_orders msg) s = (
  order_consumer-Writes db law env m msg s.orders,
  Writes-nothing s.kitchen,
  Writes-nothing s.payment,
  Writes-nothing s.dispatch,
)
handled-Writes db law env m (for_kitchen ttl msg) s = (
  Writes-nothing s.orders,
  kitchen_consumer-Writes env s.kitchen db law ttl m msg,
  Writes-nothing s.payment,
  Writes-nothing s.dispatch,
)
handled-Writes db law env m (for_payment rate msg) s = (
  Writes-nothing s.orders,
  Writes-nothing s.kitchen,
  payment_consumer-Writes env s.payment db law rate m msg,
  Writes-nothing s.dispatch,
)
handled-Writes db law env m (for_dispatch msg) s = (
  Writes-nothing s.orders,
  Writes-nothing s.kitchen,
  Writes-nothing s.payment,
  dispatch_consumer-Writes env s.dispatch db law m msg,
)

module _ {C S : Type 0} (otel : OpenTelemetry C S) where
  -- A row whose traceparent leads its consumer into the trace.
  abbrev pub IsOfTrace : String → OutboxMessage → Type 0
  IsOfTrace k row =
      (tp : String) × (row.traceparent ≡ some tp) × (otel.trace_of (otel.extract tp) ≡ some k)

  All-IsOfTrace :
      (k tp : String) (env : Env) (new : List OutboxMessage)
      → env.active_trace ≡ some tp
      → otel.trace_of (otel.extract tp) ≡ some k
      → All (Carries env) new
      → All (IsOfTrace k) new
  All-IsOfTrace k tp env [] e h carry = tt
  All-IsOfTrace k tp env (row ∷ new) e h carry =
      ((tp, carry.0 ∙ e, h), All-IsOfTrace k tp env new e h carry.1)

  Writes-IsOfTrace :
      {D : Type 0} (s t : Store D) (k tp : String) (env : Env)
      → env.active_trace ≡ some tp
      → otel.trace_of (otel.extract tp) ≡ some k
      → Writes (Carries env) s t
      → Writes (IsOfTrace k) s t
  Writes-IsOfTrace s t k tp env e h (new, grown, carry) =
      (new, grown, All-IsOfTrace k tp env new e h carry)

  -- With an OpenTelemetry that propagates, a message of the four queues whose traceparent is not
  -- empty and of some trace is handled in that trace, whatever it says, the tables hold and the
  -- handler throws: every row that the handler adds to an outbox has a traceparent of the same trace,
  -- the rows before stay as they are, and one span was started for the message and it is ended.
  pub traced_consumer-IsOfTrace :
      Propagates otel
      → (db : Prisma) → Documented db
      → (show : SagaStep → String) (env : Env) (m : MessageEnvelope) (msg : QueueMessage)
        (s : System) (active : C) (spans : Spans S) (tp k : String)
      → m.traceparent ≡ some tp
      → (len tp == 0) ≡ false
      → otel.trace_of (otel.extract tp) ≡ some k
      → let ((acked, t), after) = traced_consumer otel db show env m msg s active spans in
        Writes (IsOfTrace k) s.orders t.orders
        × Writes (IsOfTrace k) s.kitchen t.kitchen
        × Writes (IsOfTrace k) s.payment t.payment
        × Writes (IsOfTrace k) s.dispatch t.dispatch
        × (after ≡ record {
          started = suc spans.started;
          ended =
              spans.ended
              ++ otel.start_span spans.started (span_of show msg) (otel.extract tp) ∷ [];
        })
  unfolding traced_consumer run_with_traceparent
  traced_consumer-IsOfTrace law db db_law show env m msg s active spans tp k carried given valid =
      let parent = otel.extract tp in
      let span = otel.start_span spans.started (span_of show msg) parent in
      let c = otel.set_span parent span in
      let (next, injected, same) =
        law.carried c k (law.child parent k spans.started (span_of show msg) valid) in
      let env_of = in_context otel c env in
      let t = (handled db env_of m.message_id msg s).1 in
      let (orders, kitchen, payment, dispatch) =
        handled-Writes db db_law env_of m.message_id msg s in
      rw (carried, given)
        (
          Writes-IsOfTrace s.orders t.orders k next env_of injected same orders,
          Writes-IsOfTrace s.kitchen t.kitchen k next env_of injected same kitchen,
          Writes-IsOfTrace s.payment t.payment k next env_of injected same payment,
          Writes-IsOfTrace s.dispatch t.dispatch k next env_of injected same dispatch,
          refl,
        )
