-- ===== src/Payment/Service.antt =====
-- apps/payment-service/src/payment/payment.service.ts. The latency is not modelled; the draw of
-- Math.random() and the configured failure rate are numbers on one scale.
use hotdrop_orchestration.Base.{
  Key, ℕ, suc, Bool, not, Option, none, some, List, [], ◌∷◌, ltb, if◌then◌else◌,
}
use hotdrop_orchestration.Contracts.{
  PaymentStatus, SagaReply, SagaStep, AuthorizePaymentCommand, PaymentCommand, ok_status,
  failed_status,
}
use hotdrop_orchestration.Result.{Result, ok, err, Tx, step_failure, pure, throw, ◌>>=◌, ◌>>◌}
use hotdrop_orchestration.Prisma.{Prisma}
use hotdrop_orchestration.Messaging.{Env}
use hotdrop_orchestration.Participant.{Work, consume}
use hotdrop_orchestration.Payment.{
  Payment, PaymentTables, PaymentStore, payment_key, payment_order_key, is_authorized, is_refunded,
}

abbrev pub authorized_reply : Key → Key → SagaReply
authorized_reply order_id payment_id = record {
  order_id = order_id;
  step = SagaStep.authorize_payment;
  status = ok_status;
  reason = none;
  result = some (record {
    reservation_id = none;
    payment_id = some payment_id;
    assignment_id = none;
    courier_id = none;
  });
}

abbrev pub declined_reply : Key → SagaReply
declined_reply order_id = record {
  order_id = order_id;
  step = SagaStep.authorize_payment;
  status = failed_status;
  reason = some "PAYMENT_DECLINED";
  result = none;
}

abbrev pub captured_reply : Key → SagaReply
captured_reply order_id = record {
  order_id = order_id;
  step = SagaStep.capture_payment;
  status = ok_status;
  reason = none;
  result = none;
}

abbrev pub with_payments : List Payment → PaymentStore → PaymentStore
with_payments rows s = record s { tables = record { payments = rows } }

module _ (db : Prisma) (env : Env) where
  unfoldable pub create_payment : AuthorizePaymentCommand → Tx PaymentStore Key
  create_payment cmd s =
      let row : Payment = record {
        id = env.cuid s.drawn;
        order_id = cmd.order_id;
        status = PaymentStatus.authorized;
        amount_cents = cmd.amount_cents;
      } in
      elim (db.create (payment_order_key ∷ []) row s.tables.payments) [
        | ok rows ↦ ok (row.id, record (with_payments rows s) { drawn = suc s.drawn })
        | err e ↦ err e
      ]

  unfoldable pub set_payment : Key → PaymentStatus → Tx PaymentStore (Unit {0})
  set_payment id status s =
      elim (db.update payment_key id (λ p. some (record p { status = status })) s.tables.payments) [
        | ok rows ↦ ok (tt, with_payments rows s)
        | err e ↦ err e
      ]

  unfoldable pub authorize_found :
      Bool → AuthorizePaymentCommand → Option Payment → Work PaymentTables
  authorize_found declined cmd (some existing) =
      pure (some (authorized_reply cmd.order_id existing.id))
  authorize_found declined cmd none =
      if declined
      then throw (step_failure (declined_reply cmd.order_id))
      else (create_payment cmd >>= λ id. pure (some (authorized_reply cmd.order_id id)))

  -- authorize: `draw` is Math.random() and `failure_rate` the configuration's.
  unfoldable pub authorize :
      ℕ → ℕ → Key → AuthorizePaymentCommand → PaymentStore → Result (Unit {0}) × PaymentStore
  authorize failure_rate draw message_id cmd = consume db env message_id λ s.
      authorize_found (ltb draw failure_rate) cmd
        (db.find_unique payment_order_key cmd.order_id s.tables.payments) s

  unfoldable pub capture_work : PaymentCommand → Work PaymentTables
  capture_work cmd =
      set_payment cmd.payment_id PaymentStatus.captured >> pure (some (captured_reply cmd.order_id))

  unfoldable pub capture : Key → PaymentCommand → PaymentStore → Result (Unit {0}) × PaymentStore
  capture message_id cmd = consume db env message_id (capture_work cmd)

  unfoldable pub void_found : PaymentCommand → Option Payment → Work PaymentTables
  void_found cmd none = pure none
  void_found cmd (some p) =
      if is_authorized p.status
      then (set_payment cmd.payment_id PaymentStatus.voided >> pure none)
      else pure none

  unfoldable pub void_payment :
      Key → PaymentCommand → PaymentStore → Result (Unit {0}) × PaymentStore
  void_payment message_id cmd =
      consume db env message_id
        λ s. void_found cmd (db.find_unique payment_key cmd.payment_id s.tables.payments) s

  unfoldable pub refund_found : PaymentCommand → Option Payment → Work PaymentTables
  refund_found cmd none = pure none
  refund_found cmd (some p) =
      if not (is_refunded p.status)
      then (set_payment cmd.payment_id PaymentStatus.refunded >> pure none)
      else pure none

  unfoldable pub refund : Key → PaymentCommand → PaymentStore → Result (Unit {0}) × PaymentStore
  refund message_id cmd =
      consume db env message_id
        λ s. refund_found cmd (db.find_unique payment_key cmd.payment_id s.tables.payments) s
