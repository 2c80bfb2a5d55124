-- ===== src/Telemetry/Examples.antt =====
-- A message of the order service in its trace.
use hotdrop_orchestration.Base.{◌≡◌, refl, Option, String, none, some, [], ◌∷◌}
use hotdrop_orchestration.Contracts.{OrderStatus, Payload, SagaReply, SagaStep, ok_status}
use hotdrop_orchestration.Prisma.{in_memory, in_memory-Documented}
use hotdrop_orchestration.Messaging.{MessageEnvelope}
use hotdrop_orchestration.Examples.{clock, database}
use hotdrop_orchestration.Order.{Order}
use hotdrop_orchestration.Order.Service.{new_saga}
use hotdrop_orchestration.Order.Consumer.{a_reply}
use hotdrop_orchestration.Saga.System.{System}
use hotdrop_orchestration.Telemetry.{OpenTelemetry, Propagates, Spans, for_orders, traced_consumer}
use hotdrop_orchestration.Telemetry.Rows.{Writes}
use hotdrop_orchestration.Telemetry.Traced.{IsOfTrace, traced_consumer-IsOfTrace}

-- Contexts and spans that are no more than the trace that they are of.
abbrev only_traces : OpenTelemetry (Option String) (Option String)
only_traces = record {
  extract = λ tp. some tp;
  inject = λ c. c;
  start_span = λ n name c. c;
  set_span = λ c span. span;
  trace_of = λ c. c;
}

only_traces-Propagates : Propagates only_traces
only_traces-Propagates = record { child = λ c k n name e. e; carried = λ c k e. (k, e, refl) }

abbrev reserved_order : Order
reserved_order = record {
  id = 60;
  customer_id = 3;
  status = OrderStatus.portions_reserved;
  delivery_address = "1 High Street";
  total_cents = 1250;
  created_at = 0;
  lines = record { drop_id = 1; qty = 2; unit_price_cents = 625 } ∷ [];
}

abbrev services : System
services = record {
  orders = database (record { orders = reserved_order ∷ []; sagas = new_saga 60 ∷ [] });
  kitchen = database (record { drops = []; reservations = [] });
  payment = database (record { payments = [] });
  dispatch = database (record { assignments = []; deliveries = [] });
}

abbrev authorized : SagaReply
authorized = record {
  order_id = 60;
  step = SagaStep.authorize_payment;
  status = ok_status;
  reason = none;
  result = some (record {
    reservation_id = none;
    payment_id = some 70;
    assignment_id = none;
    courier_id = none;
  });
}

abbrev in_a_trace : MessageEnvelope
in_a_trace = record {
  message_id = 900;
  body = Payload.reply_body authorized;
  traceparent = some "00-4bf9-00f0-01";
}

abbrev no_spans : Spans (Option String)
no_spans = record { started = 0; ended = [] }

traced_consumer-IsOfTrace_example :
    let ((acked, t), after) =
      traced_consumer only_traces in_memory
        (λ step. "AuthorizePayment")
        clock
        in_a_trace
        (for_orders (a_reply authorized))
        services
        none
        no_spans in
    let IsOfThisTrace = IsOfTrace only_traces "00-4bf9-00f0-01" in
    Writes IsOfThisTrace services.orders t.orders
    × Writes IsOfThisTrace services.kitchen t.kitchen
    × Writes IsOfThisTrace services.payment t.payment
    × Writes IsOfThisTrace services.dispatch t.dispatch
    × (after ≡ record { started = 1; ended = some "00-4bf9-00f0-01" ∷ [] })
traced_consumer-IsOfTrace_example =
    traced_consumer-IsOfTrace only_traces only_traces-Propagates in_memory in_memory-Documented
      (λ step. "AuthorizePayment") clock in_a_trace (for_orders (a_reply authorized)) services none
      no_spans "00-4bf9-00f0-01" "00-4bf9-00f0-01" refl refl refl
