-- ===== src/Telemetry.antt =====
-- packages/telemetry/src/index.ts: the start of tracing in a process, and the trace in which a message
-- is handled. OpenTelemetry's API is a parameter: its contexts C, its spans S, and the laws on them
-- that the W3C propagator documents.
pub mod Rows
pub mod Commands
pub mod Traced
mod Examples
use Prim.Native.String.{◌++◌ as ◌+++◌, len}
use hotdrop_orchestration.Base.{
  Key, ℕ, suc, String, Bool, true, false, ◌≡◌, Option, none, some, List, [], ◌∷◌, ◌++◌, ◌==◌,
  if◌then◌else◌,
}
use hotdrop_orchestration.Contracts.{SagaStep}
use hotdrop_orchestration.Prisma.{Prisma}
use hotdrop_orchestration.Messaging.{Env, MessageEnvelope}
use hotdrop_orchestration.Order.Consumer.{SagaMessage, a_reply, a_delivery, order_consumer}
use hotdrop_orchestration.Kitchen.Consumer.{
  KitchenMessage, on_reserve, on_release, on_accept, kitchen_consumer,
}
use hotdrop_orchestration.Payment.Consumer.{
  PaymentMessage, on_authorize, on_capture, on_void, on_refund, payment_consumer,
}
use hotdrop_orchestration.Dispatch.Consumer.{
  DispatchMessage, on_assign, on_unassign, dispatch_consumer,
}
use hotdrop_orchestration.Saga.System.{System}

-- The NodeSDK of a process, and the handlers of the signals that end it.
pub record Sdk : Type 0 where
  pub service_name : String
  pub exporter_url : String
  pub fs_spans : Bool

pub record Process : Type 0 where
  pub sdk : Option Sdk
  pub started : List Sdk
  pub on_sigterm : List Sdk
  pub on_sigint : List Sdk

-- process.env.OTEL_EXPORTER_OTLP_ENDPOINT ?? "http://localhost:4318"
unfoldable pub endpoint_or_default : Option String → String
endpoint_or_default (some endpoint) = endpoint
endpoint_or_default none = "http://localhost:4318"

unfoldable pub start_tracing : Option String → String → Process → Process
unfolding endpoint_or_default
start_tracing endpoint service_name p =
    let sdk : Sdk = record {
      service_name = service_name;
      exporter_url = endpoint_or_default endpoint +++ "/v1/traces";
      fs_spans = false;
    } in
    elim p.sdk [
      | some running ↦ p
      | none ↦ record {
        sdk = some sdk;
        started = p.started ++ sdk ∷ [];
        on_sigterm = p.on_sigterm ++ sdk ∷ [];
        on_sigint = p.on_sigint ++ sdk ∷ [];
      }
    ]

-- propagation.extract from the root context, what propagation.inject leaves in an empty carrier,
-- the n-th span that is started in a process, and trace.setSpan.
pub record OpenTelemetry (C S : Type 0) : Type 0 where
  pub extract : String → C
  pub inject : C → Option String
  pub start_span : ℕ → String → C → S
  pub set_span : C → S → C
  pub trace_of : C → Option String

-- A child span is of its parent's trace, a context with a trace has a traceparent, and what is
-- extracted from a traceparent is of the trace that it was injected from.
pub record Propagates {C S : Type 0} (otel : OpenTelemetry C S) : Type 0 where
  pub child :
      (c : C) (k : String) (n : ℕ) (name : String)
      → otel.trace_of c ≡ some k
      → otel.trace_of (otel.set_span c (otel.start_span n name c)) ≡ some k
  pub carried :
      (c : C) (k : String)
      → otel.trace_of c ≡ some k
      → (tp : String) × (otel.inject c ≡ some tp) × (otel.trace_of (otel.extract tp) ≡ some k)

-- The spans of a process: how many were started, and those that were ended.
pub record Spans (S : Type 0) : Type 0 where
  pub started : ℕ
  pub ended : List S

-- A message of one of the queues, with what its handler reads of its service's settings.
pub data QueueMessage : Type 0 where
  for_orders : SagaMessage → QueueMessage
  for_kitchen : ℕ → KitchenMessage → QueueMessage
  for_payment : ℕ → PaymentMessage → QueueMessage
  for_dispatch : DispatchMessage → QueueMessage

-- The name of the span in which each message is handled; `show` is a step's text.
unfoldable pub saga_span : (SagaStep → String) → SagaMessage → String
saga_span show (a_reply r) = "saga reply " +++ show r.step
saga_span show (a_delivery e) = "saga delivery_delivered"

unfoldable pub kitchen_span : KitchenMessage → String
kitchen_span (on_reserve cmd) = "kitchen reserve_portions"
kitchen_span (on_release cmd) = "kitchen release_portions"
kitchen_span (on_accept cmd) = "kitchen accept_order"

unfoldable pub payment_span : PaymentMessage → String
payment_span (on_authorize draw cmd) = "payment authorize"
payment_span (on_capture cmd) = "payment capture"
payment_span (on_void cmd) = "payment void"
payment_span (on_refund cmd) = "payment refund"

unfoldable pub dispatch_span : DispatchMessage → String
dispatch_span (on_assign courier cmd) = "dispatch assign_courier"
dispatch_span (on_unassign cmd) = "dispatch unassign_courier"

abbrev pub span_of : (SagaStep → String) → QueueMessage → String
span_of show (for_orders msg) = saga_span show msg
span_of show (for_kitchen ttl msg) = kitchen_span msg
span_of show (for_payment failure_rate msg) = payment_span msg
span_of show (for_dispatch msg) = dispatch_span msg

-- Whether the handler of a message acknowledges it, and the services after it.
unfoldable pub handled : Prisma → Env → Key → QueueMessage → System → Bool × System
handled db env m (for_orders msg) s =
    let (acked, t) = order_consumer db env m msg s.orders in (acked, record s { orders = t })
handled db env m (for_kitchen ttl msg) s =
    let (acked, t) = kitchen_consumer db env ttl m msg s.kitchen in
    (acked, record s { kitchen = t })
handled db env m (for_payment failure_rate msg) s =
    let (acked, t) = payment_consumer db env failure_rate m msg s.payment in
    (acked, record s { payment = t })
handled db env m (for_dispatch msg) s =
    let (acked, t) = dispatch_consumer db env m msg s.dispatch in (acked, record s { dispatch = t })

module _ {C S : Type 0} (otel : OpenTelemetry C S) where
  -- runWithTraceparent: what fn gives is what it returns or throws, as the span is ended after both.
  unfoldable pub run_with_traceparent :
      {A : Type 0}
      → Option String
      → String
      → (C → Spans S → A × Spans S)
      → C
      → Spans S
      → A × Spans S
  run_with_traceparent none span_name fn active spans = fn active spans
  run_with_traceparent (some traceparent) span_name fn active spans =
      let parent = otel.extract traceparent in
      let span = otel.start_span spans.started span_name parent in
      let (out, after) =
        fn (otel.set_span parent span) (record spans { started = suc spans.started }) in
      if len traceparent == 0
      then fn active spans
      else (out, record after { ended = after.ended ++ span ∷ [] })

  -- What createOutboxMessage reads of the active context.
  abbrev pub in_context : C → Env → Env
  in_context c env = record env { active_trace = otel.inject c }

  -- The handlers of the four consumers, in the trace of the message.
  unfoldable pub traced_consumer :
      Prisma
      → (SagaStep → String)
      → Env
      → MessageEnvelope
      → QueueMessage
      → System
      → C
      → Spans S
      → (Bool × System) × Spans S
  traced_consumer db show env m msg s active spans =
      run_with_traceparent m.traceparent (span_of show msg)
        (λ c u. (handled db (in_context c env) m.message_id msg s, u)) active spans
