-- ===== src/Payment/Consumer.antt =====
-- apps/payment-service/src/payment/payment.consumer.ts: the messages of the queue payment.commands.
use hotdrop_orchestration.Base.{Key, ℕ, ◌≡◌, sym, subst, Bool, true, some, ltb}
use hotdrop_orchestration.Contracts.{AuthorizePaymentCommand, PaymentCommand}
use hotdrop_orchestration.Prisma.{Prisma, Documented, in_memory, is_in_memory}
use hotdrop_orchestration.Messaging.{Env, InboxMessage}
use hotdrop_orchestration.Participant.Consume.{received}
use hotdrop_orchestration.Participant.Delivery.{acknowledged, consume_known, acknowledged-known}
use hotdrop_orchestration.Payment.{PaymentStore}
use hotdrop_orchestration.Payment.Service.{authorize, capture, void_payment, refund}
use hotdrop_orchestration.Payment.Commands.{
  authorize-settled, capture-settled, void_payment-settled, refund-settled, authorize_inbox,
  capture_inbox, void_inbox, refund_inbox,
}
use hotdrop_orchestration.Payment.Outcomes.{
  by_id, by_order, authorize_outcome, capture_outcome, void_outcome, refund_outcome,
}

-- A message, with the draw that the gateway makes for an authorization.
pub data PaymentMessage : Type 0 where
  on_authorize : ℕ → AuthorizePaymentCommand → PaymentMessage
  on_capture on_void on_refund : PaymentCommand → PaymentMessage

-- The handler of a message, and whether it is acknowledged.
unfoldable pub payment_consumer :
    Prisma → Env → ℕ → Key → PaymentMessage → PaymentStore → Bool × PaymentStore
payment_consumer db env failure_rate m (on_authorize draw cmd) s =
    acknowledged (authorize db env failure_rate draw m cmd s)
payment_consumer db env failure_rate m (on_capture cmd) s = acknowledged (capture db env m cmd s)
payment_consumer db env failure_rate m (on_void cmd) s = acknowledged (void_payment db env m cmd s)
payment_consumer db env failure_rate m (on_refund cmd) s = acknowledged (refund db env m cmd s)

known_again :
    (env : Env) (rate : ℕ) (m : Key) (msg : PaymentMessage) (s : PaymentStore) (x : InboxMessage)
    → received m s ≡ some x
    → payment_consumer in_memory env rate m msg s ≡ (true, s)
unfolding payment_consumer authorize capture void_payment refund acknowledged
known_again env rate m (on_authorize draw cmd) s x e = rw (consume_known env m _ s x e)
known_again env rate m (on_capture cmd) s x e = rw (consume_known env m _ s x e)
known_again env rate m (on_void cmd) s x e = rw (consume_known env m _ s x e)
known_again env rate m (on_refund cmd) s x e = rw (consume_known env m _ s x e)

handled-known :
    (db : Prisma)
    → Documented db
    → (env : Env) (rate : ℕ) (m : Key) (msg : PaymentMessage) (s : PaymentStore)
    → (payment_consumer db env rate m msg s).0 ≡ true
    → (x : InboxMessage) × (received m (payment_consumer db env rate m msg s).1 ≡ some x)
unfolding payment_consumer
handled-known db law env rate m (on_authorize draw cmd) s acked =
    acknowledged-known env m s
      (authorize_outcome env (ltb draw rate) cmd (by_order cmd.order_id s) s) _
      (authorize-settled db law env rate draw m cmd s)
      (authorize_inbox env (ltb draw rate) cmd s (by_order cmd.order_id s)) acked
handled-known db law env rate m (on_capture cmd) s acked =
    acknowledged-known env m s (capture_outcome cmd (by_id cmd.payment_id s) s) _
      (capture-settled db law env m cmd s) (capture_inbox cmd s (by_id cmd.payment_id s)) acked
handled-known db law env rate m (on_void cmd) s acked =
    acknowledged-known env m s (void_outcome cmd (by_id cmd.payment_id s) s) _
      (void_payment-settled db law env m cmd s) (void_inbox cmd s (by_id cmd.payment_id s)) acked
handled-known db law env rate m (on_refund cmd) s acked =
    acknowledged-known env m s (refund_outcome cmd (by_id cmd.payment_id s) s) _
      (refund-settled db law env m cmd s) (refund_inbox cmd s (by_id cmd.payment_id s)) acked

-- The broker delivers at least once: a message of the payment queue that was acknowledged and is
-- delivered again at once, with any content and any draw, is acknowledged again and changes nothing.
pub payment_redelivery :
    (db : Prisma)
    → Documented db
    → (env later : Env) (failure_rate : ℕ) (m : Key) (msg again : PaymentMessage) (s : PaymentStore)
    → (payment_consumer db env failure_rate m msg s).0 ≡ true
    → let t = (payment_consumer db env failure_rate m msg s).1 in
      payment_consumer db later failure_rate m again t ≡ (true, t)
payment_redelivery db law env later rate m msg again s acked =
    let (x, known) = handled-known db law env rate m msg s acked in
    subst
      (λ d.
        payment_consumer d later rate m again (payment_consumer db env rate m msg s).1
        ≡ (true, (payment_consumer db env rate m msg s).1))
      (sym (is_in_memory law)) (known_again later rate m again _ x known)
