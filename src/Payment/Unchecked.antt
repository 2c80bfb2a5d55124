-- ===== src/Payment/Unchecked.antt =====
-- RefundPayment and CapturePayment for one payment: neither looks at what the other has done.
use hotdrop_orchestration.Base.{
  Key, ℕ, ◌≡◌, refl, ap, ◌∙◌, true, false, none, some, [], ◌∷◌, ◌++◌, ◌==◌, Bool-cases, inl, inr,
  first-modify_first_self,
}
use hotdrop_orchestration.Contracts.{
  PaymentStatus, PaymentCommand, Payload, SagaStep, ok_status, saga_reply,
}
use hotdrop_orchestration.Result.{ok}
use hotdrop_orchestration.Prisma.{Prisma, Documented}
use hotdrop_orchestration.Messaging.{Env, OutboxMessage, create_outbox_message, outbox_row}
use hotdrop_orchestration.Participant.Consume.{received}
use hotdrop_orchestration.Order.Orchestrator.Journey.{first-append_none}
use hotdrop_orchestration.Payment.{Payment, PaymentStore, is_refunded}
use hotdrop_orchestration.Payment.Service.{refund, capture}
use hotdrop_orchestration.Payment.Commands.{refund-settled, capture-settled}
use hotdrop_orchestration.Payment.Outcomes.{by_id, with_status}

with_status_found :
    (id : Key) (status : PaymentStatus) (s : PaymentStore) (p : Payment)
    → by_id id s ≡ some p
    → by_id id (with_status id status s) ≡ some (record p { status = status })
with_status_found id status s p e =
    first-modify_first_self (λ q. q.id == id) (λ q. record q { status = status }) s.tables.payments
      p (λ q. refl) e

refunded_status : (s : PaymentStatus) → is_refunded s ≡ true → s ≡ PaymentStatus.refunded
unfolding is_refunded
refunded_status PaymentStatus.refunded e = refl
refunded_status PaymentStatus.authorized e = cc
refunded_status PaymentStatus.captured e = cc
refunded_status PaymentStatus.voided e = cc
refunded_status PaymentStatus.failed e = cc

-- A refund of a payment of any status.
refund_any :
    (db : Prisma)
    → Documented db
    → (env : Env) (m n : Key) (cmd : PaymentCommand) (s : PaymentStore) (p : Payment)
    → received m s ≡ none
    → received n s ≡ none
    → (m == n) ≡ false
    → by_id cmd.payment_id s ≡ some p
    → let (result, t) = refund db env m cmd s in
      (result ≡ ok tt)
      × (by_id cmd.payment_id t ≡ some (record p { status = PaymentStatus.refunded }))
      × (t.outbox ≡ s.outbox)
      × (t.drawn ≡ s.drawn)
      × (received n t ≡ none)
refund_any db law env m n cmd s p new later apart found =
    let unseen =
      first-append_none (λ x. x.message_id == n) s.inbox
        (record { message_id = m; processed_at = env.now }) later apart in
    elim (Bool-cases (is_refunded p.status)) [
      | inl over ↦
          rw (refund-settled db law env m cmd s, new, found, over)
            (
              refl,
              found ∙ ap (λ st. some (record p { status = st })) (refunded_status p.status over),
              refl,
              refl,
              unseen,
            )
      | inr open_one ↦
          rw (refund-settled db law env m cmd s, new, found, open_one)
            (
              refl,
              with_status_found cmd.payment_id PaymentStatus.refunded s p found,
              refl,
              refl,
              unseen,
            )
    ]

-- The reply to a capture that went well, as a row of the outbox.
abbrev pub captured_row : Env → ℕ → Key → OutboxMessage
captured_row env n order_id = outbox_row env (
    create_outbox_message env n saga_reply (
      Payload.reply_body (record {
        order_id = order_id;
        step = SagaStep.capture_payment;
        status = ok_status;
        reason = none;
        result = none;
      })))

capture_any :
    (db : Prisma)
    → Documented db
    → (env : Env) (n : Key) (cmd : PaymentCommand) (t : PaymentStore) (p : Payment)
    → received n t ≡ none
    → by_id cmd.payment_id t ≡ some p
    → let (result, u) = capture db env n cmd t in
      (result ≡ ok tt)
      × (by_id cmd.payment_id u ≡ some (record p { status = PaymentStatus.captured }))
      × (u.outbox ≡ t.outbox ++ captured_row env t.drawn cmd.order_id ∷ [])
capture_any db law env n cmd t p new found =
    rw (capture-settled db law env n cmd t, new, found)
      (refl, with_status_found cmd.payment_id PaymentStatus.captured t p found, refl)

-- A payment is refunded and captured whatever its status was: a new RefundPayment makes it REFUNDED
-- and sends nothing, also where it was only AUTHORIZED or VOIDED, and a new CapturePayment after it
-- makes it CAPTURED, and sends the OK reply.
pub refund_then_capture :
    (db : Prisma)
    → Documented db
    → (env later : Env) (m n : Key) (cmd : PaymentCommand) (s : PaymentStore) (p : Payment)
    → received m s ≡ none
    → received n s ≡ none
    → (m == n) ≡ false
    → by_id cmd.payment_id s ≡ some p
    → let (refund_result, t) = refund db env m cmd s in
      let (capture_result, u) = capture db later n cmd t in
      (refund_result ≡ ok tt)
      × (by_id cmd.payment_id t ≡ some (record p { status = PaymentStatus.refunded }))
      × (t.outbox ≡ s.outbox)
      × (capture_result ≡ ok tt)
      × (by_id cmd.payment_id u ≡ some (record p { status = PaymentStatus.captured }))
      × (u.outbox ≡ s.outbox ++ captured_row later s.drawn cmd.order_id ∷ [])
refund_then_capture db law env later m n cmd s p new unseen apart found =
    let (done, back, quiet, drawn, fresh) =
      refund_any db law env m n cmd s p new unseen apart found in
    let (taken, charged, sent) =
      capture_any db law later n cmd (refund db env m cmd s).1
        (record p { status = PaymentStatus.refunded }) fresh back in
    (
      done,
      back,
      quiet,
      taken,
      charged,
      sent ∙ λ i. quiet i ++ captured_row later (drawn i) cmd.order_id ∷ [],
    )
