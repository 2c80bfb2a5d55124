-- ===== src/Payment/Examples.antt =====
-- Runs of the payment service's commands at concrete inputs.
use hotdrop_orchestration.Base.{◌≡◌, refl, false, none, some, [], ◌∷◌}
use hotdrop_orchestration.Contracts.{PaymentStatus, AuthorizePaymentCommand, PaymentCommand}
use hotdrop_orchestration.Result.{ok}
use hotdrop_orchestration.Prisma.{in_memory, in_memory-Documented}
use hotdrop_orchestration.Examples.{clock, database}
use hotdrop_orchestration.Participant.Consume.{replied, recorded, settled}
use hotdrop_orchestration.Payment.{Payment, PaymentStore, is_authorized}
use hotdrop_orchestration.Participant.{consume}
use hotdrop_orchestration.Payment.Service.{
  void_found, set_payment, authorize, void_payment, refund, capture, authorized_reply,
}
use hotdrop_orchestration.Payment.Commands.{authorize-settled}
use hotdrop_orchestration.Payment.Outcomes.{by_id, authorize_outcome}
use hotdrop_orchestration.Payment.Holds.{Reach, here, next, voiding, authorize_once}
use hotdrop_orchestration.Payment.Unchecked.{captured_row, refund_then_capture}

abbrev payment : Payment
payment = record { id = 40; order_id = 60; status = PaymentStatus.authorized; amount_cents = 1250 }

abbrev payments : PaymentStore
payments = database (record { payments = payment ∷ [] })

abbrev for_other : AuthorizePaymentCommand
for_other = record { order_id = 61; customer_id = 3; amount_cents = 900 }

abbrev for_same : AuthorizePaymentCommand
for_same = record { order_id = 60; customer_id = 3; amount_cents = 1250 }

abbrev of_payment : PaymentCommand
of_payment = record { order_id = 60; payment_id = 40 }

authorize-settled_example :
    authorize in_memory clock 10 50 7 for_other payments
    ≡ settled clock 7 none (authorize_outcome clock false for_other none payments) payments
authorize-settled_example =
    authorize-settled in_memory in_memory-Documented clock 10 50 7 for_other payments

abbrev voided_payments : PaymentStore
voided_payments = (void_payment in_memory clock 6 of_payment payments).1

abbrev after_void : Reach in_memory payments voided_payments
after_void = next here (voiding clock 6 of_payment)

authorize_once_example :
    authorize in_memory clock 10 5 7 for_same voided_payments
    ≡ (ok tt, recorded clock 7 (replied clock (some (authorized_reply 60 40)) voided_payments))
unfolding void_payment consume void_found is_authorized set_payment
authorize_once_example =
    authorize_once in_memory-Documented payment clock 10 5 7 for_same refl after_void refl

refund_then_capture_example :
    let (refund_result, t) = refund in_memory clock 7 of_payment payments in
    let (capture_result, u) = capture in_memory clock 8 of_payment t in
    (refund_result ≡ ok tt)
    × (by_id 40 t ≡ some (record payment { status = PaymentStatus.refunded }))
    × (t.outbox ≡ [])
    × (capture_result ≡ ok tt)
    × (by_id 40 u ≡ some (record payment { status = PaymentStatus.captured }))
    × (u.outbox ≡ captured_row clock 0 60 ∷ [])
refund_then_capture_example =
    refund_then_capture in_memory in_memory-Documented clock clock 7 8 of_payment payments payment
      refl refl refl refl
