-- ===== src/Payment/Outcomes.antt =====
-- What each command of the payment service comes to, from the payment that it finds.
use hotdrop_orchestration.Base.{
  Key, ℕ, suc, Bool, Option, none, some, [], ◌∷◌, ◌++◌, ◌==◌, if◌then◌else◌, first, modify_first,
}
use hotdrop_orchestration.Contracts.{
  PaymentStatus, AuthorizePaymentCommand, PaymentCommand, SagaReply,
}
use hotdrop_orchestration.Result.{Result, ok, err, step_failure, record_not_found}
use hotdrop_orchestration.Messaging.{Env}
use hotdrop_orchestration.Payment.{Payment, PaymentStore, is_authorized, is_refunded}
use hotdrop_orchestration.Payment.Service.{
  authorized_reply, declined_reply, captured_reply, with_payments,
}

abbrev pub Outcome : Type 0
Outcome = Result (Option SagaReply × PaymentStore)

abbrev pub by_id : Key → PaymentStore → Option Payment
by_id id s = first (λ p. p.id == id) s.tables.payments

abbrev pub by_order : Key → PaymentStore → Option Payment
by_order order_id s = first (λ p. p.order_id == order_id) s.tables.payments

-- The row of a new hold.
abbrev pub new_payment : Env → ℕ → AuthorizePaymentCommand → Payment
new_payment env drawn cmd = record {
  id = env.cuid drawn;
  order_id = cmd.order_id;
  status = PaymentStatus.authorized;
  amount_cents = cmd.amount_cents;
}

abbrev pub with_status : Key → PaymentStatus → PaymentStore → PaymentStore
with_status id status s =
    with_payments
      (modify_first (λ p. p.id == id) (λ p. record p { status = status }) s.tables.payments) s

-- AuthorizePayment, from the payment that the order may have.
abbrev pub authorize_outcome :
    Env → Bool → AuthorizePaymentCommand → Option Payment → PaymentStore → Outcome
authorize_outcome env declined cmd (some p) s = ok (some (authorized_reply cmd.order_id p.id), s)
authorize_outcome env declined cmd none s =
    if declined
    then err (step_failure (declined_reply cmd.order_id))
    else ok (
      some (authorized_reply cmd.order_id (env.cuid s.drawn)),
      record (with_payments (s.tables.payments ++ new_payment env s.drawn cmd ∷ []) s) {
        drawn = suc s.drawn;
      },
    )

-- CapturePayment, from the payment that was found.
abbrev pub capture_outcome : PaymentCommand → Option Payment → PaymentStore → Outcome
capture_outcome cmd none s = err record_not_found
capture_outcome cmd (some p) s =
    ok (some (captured_reply cmd.order_id), with_status cmd.payment_id PaymentStatus.captured s)

-- VoidPayment: a hold that is still AUTHORIZED.
abbrev pub void_outcome : PaymentCommand → Option Payment → PaymentStore → Outcome
void_outcome cmd none s = ok (none, s)
void_outcome cmd (some p) s =
    if is_authorized p.status
    then ok (none, with_status cmd.payment_id PaymentStatus.voided s)
    else ok (none, s)

-- RefundPayment: whatever is not REFUNDED.
abbrev pub refund_outcome : PaymentCommand → Option Payment → PaymentStore → Outcome
refund_outcome cmd none s = ok (none, s)
refund_outcome cmd (some p) s =
    if is_refunded p.status
    then ok (none, s)
    else ok (none, with_status cmd.payment_id PaymentStatus.refunded s)
