-- ===== src/Payment/Commands.antt =====
-- The commands of the payment service as changes of its table: the outcome of each handler on every
-- branch.
use hotdrop_orchestration.Base.{
  Key, ℕ, suc, ◌≡◌, refl, Bool, true, false, Option, none, some, [], ◌∷◌, ◌++◌, arith, ltb, ◌==◌,
  Bool-cases, inl, inr, modify_first-const,
}
use hotdrop_orchestration.Contracts.{PaymentStatus, AuthorizePaymentCommand, PaymentCommand}
use hotdrop_orchestration.Result.{ok, >>-ok, >>-err, >>=-ok, pure}
use hotdrop_orchestration.Prisma.{Prisma, Documented, in_memory, is_in_memory}
use hotdrop_orchestration.Messaging.{Env}
use hotdrop_orchestration.Participant.Consume.{received, settled, consume_lem, KeepsInbox}
use hotdrop_orchestration.Payment.{Payment, PaymentStore, is_authorized, is_refunded}
use hotdrop_orchestration.Payment.Service.{
  authorized_reply, captured_reply, with_payments, create_payment, set_payment, authorize_found,
  authorize, capture_work, capture, void_found, void_payment, refund_found, refund,
}
use hotdrop_orchestration.Payment.Outcomes.{
  by_id, by_order, new_payment, with_status, authorize_outcome, capture_outcome, void_outcome,
  refund_outcome,
}

create_payment_lem :
    (env : Env) (cmd : AuthorizePaymentCommand) (s : PaymentStore)
    → by_order cmd.order_id s ≡ none
    → create_payment in_memory env cmd s
      ≡ ok (
        env.cuid s.drawn,
        record (with_payments (s.tables.payments ++ new_payment env s.drawn cmd ∷ []) s) {
          drawn = suc s.drawn;
        },
      )
unfolding create_payment
create_payment_lem env cmd s e = ground arith

set_payment_lem :
    (env : Env) (id : Key) (status : PaymentStatus) (s : PaymentStore) (p : Payment)
    → by_id id s ≡ some p
    → set_payment in_memory env id status s ≡ ok (tt, with_status id status s)
unfolding set_payment
set_payment_lem env id status s p e = ground (
  arith,
  modify_first-const (λ x. x.id == id) (λ x. record x { status = status }) s.tables.payments p e,
)

authorize_found_lem :
    (env : Env) (declined : Bool) (cmd : AuthorizePaymentCommand) (s : PaymentStore)
    (found : Option Payment)
    → by_order cmd.order_id s ≡ found
    → authorize_found in_memory env declined cmd found s
      ≡ authorize_outcome env declined cmd found s
unfolding authorize_found
authorize_found_lem env declined cmd s (some p) e = refl
authorize_found_lem env true cmd s none e = refl
authorize_found_lem env false cmd s none e =
    >>=-ok (create_payment in_memory env cmd) (λ id. pure (some (authorized_reply cmd.order_id id)))
      s (create_payment_lem env cmd s e)

pub authorize_inbox :
    (env : Env) (declined : Bool) (cmd : AuthorizePaymentCommand) (s : PaymentStore)
    (found : Option Payment)
    → KeepsInbox s (authorize_outcome env declined cmd found s)
authorize_inbox env declined cmd s (some p) = refl
authorize_inbox env true cmd s none = tt
authorize_inbox env false cmd s none = refl

-- AuthorizePayment answers with the payment that the order has, or, where it has none, fails its saga
-- step on a draw below the failure rate and else creates an AUTHORIZED payment of the command's
-- amount and answers with its id; a known message changes nothing.
pub authorize-settled :
    (db : Prisma)
    → Documented db
    → (env : Env) (failure_rate draw : ℕ) (message_id : Key) (cmd : AuthorizePaymentCommand)
      (s : PaymentStore)
    → authorize db env failure_rate draw message_id cmd s
      ≡ settled env message_id
          (received message_id s)
          (authorize_outcome env (ltb draw failure_rate) cmd (by_order cmd.order_id s) s)
          s
unfolding authorize
authorize-settled db law env failure_rate draw message_id cmd s = rw (is_in_memory law) (
    consume_lem env message_id
      (λ t. authorize_found in_memory env (ltb draw failure_rate) cmd (by_order cmd.order_id t) t) s
      _ _ refl (authorize_found_lem env (ltb draw failure_rate) cmd s _ refl)
      (authorize_inbox env (ltb draw failure_rate) cmd s _))

capture_work_lem :
    (env : Env) (cmd : PaymentCommand) (s : PaymentStore) (found : Option Payment)
    → by_id cmd.payment_id s ≡ found
    → capture_work in_memory env cmd s ≡ capture_outcome cmd found s
unfolding capture_work set_payment
capture_work_lem env cmd s none e =
    >>-err (set_payment in_memory env cmd.payment_id PaymentStatus.captured)
      (pure (some (captured_reply cmd.order_id))) s (rw (e, set_payment))
capture_work_lem env cmd s (some p) e =
    >>-ok (set_payment in_memory env cmd.payment_id PaymentStatus.captured)
      (pure (some (captured_reply cmd.order_id))) s
      (set_payment_lem env cmd.payment_id PaymentStatus.captured s p e)

pub capture_inbox :
    (cmd : PaymentCommand) (s : PaymentStore) (found : Option Payment)
    → KeepsInbox s (capture_outcome cmd found s)
capture_inbox cmd s none = tt
capture_inbox cmd s (some p) = refl

-- CapturePayment marks the payment CAPTURED and replies OK; for a payment that does not exist the
-- error goes on to the broker, and a known message changes nothing.
pub capture-settled :
    (db : Prisma)
    → Documented db
    → (env : Env) (message_id : Key) (cmd : PaymentCommand) (s : PaymentStore)
    → capture db env message_id cmd s
      ≡ settled env message_id
          (received message_id s)
          (capture_outcome cmd (by_id cmd.payment_id s) s)
          s
unfolding capture
capture-settled db law env message_id cmd s = rw (is_in_memory law) (
    consume_lem env message_id (capture_work in_memory env cmd) s _ _ refl
      (capture_work_lem env cmd s _ refl) (capture_inbox cmd s _))

void_found_lem :
    (env : Env) (cmd : PaymentCommand) (s : PaymentStore) (found : Option Payment)
    → by_id cmd.payment_id s ≡ found
    → void_found in_memory env cmd found s ≡ void_outcome cmd found s
unfolding void_found
void_found_lem env cmd s none e = refl
void_found_lem env cmd s (some p) e = elim (Bool-cases (is_authorized p.status)) [
  | inl acts ↦ rw acts (
      >>-ok (set_payment in_memory env cmd.payment_id PaymentStatus.voided) (pure none) s
        (set_payment_lem env cmd.payment_id PaymentStatus.voided s p e))
  | inr rests ↦ rw rests
]

pub void_inbox :
    (cmd : PaymentCommand) (s : PaymentStore) (found : Option Payment)
    → KeepsInbox s (void_outcome cmd found s)
void_inbox cmd s none = refl
void_inbox cmd s (some p) = elim (Bool-cases (is_authorized p.status)) [
  | inl acts ↦ rw acts
  | inr rests ↦ rw rests
]

-- VoidPayment marks an AUTHORIZED payment VOIDED, with no reply, and leaves one that is missing or in
-- another status alone; a known message changes nothing.
pub void_payment-settled :
    (db : Prisma)
    → Documented db
    → (env : Env) (message_id : Key) (cmd : PaymentCommand) (s : PaymentStore)
    → void_payment db env message_id cmd s
      ≡ settled env message_id
          (received message_id s)
          (void_outcome cmd (by_id cmd.payment_id s) s)
          s
unfolding void_payment
void_payment-settled db law env message_id cmd s = rw (is_in_memory law) (
    consume_lem env message_id (λ t. void_found in_memory env cmd (by_id cmd.payment_id t) t) s _ _
      refl (void_found_lem env cmd s _ refl) (void_inbox cmd s _))

refund_found_lem :
    (env : Env) (cmd : PaymentCommand) (s : PaymentStore) (found : Option Payment)
    → by_id cmd.payment_id s ≡ found
    → refund_found in_memory env cmd found s ≡ refund_outcome cmd found s
unfolding refund_found
refund_found_lem env cmd s none e = refl
refund_found_lem env cmd s (some p) e = elim (Bool-cases (is_refunded p.status)) [
  | inl acts ↦ rw acts
  | inr rests ↦ rw rests (
      >>-ok (set_payment in_memory env cmd.payment_id PaymentStatus.refunded) (pure none) s
        (set_payment_lem env cmd.payment_id PaymentStatus.refunded s p e))
]

pub refund_inbox :
    (cmd : PaymentCommand) (s : PaymentStore) (found : Option Payment)
    → KeepsInbox s (refund_outcome cmd found s)
refund_inbox cmd s none = refl
refund_inbox cmd s (some p) = elim (Bool-cases (is_refunded p.status)) [
  | inl acts ↦ rw acts
  | inr rests ↦ rw rests
]

-- RefundPayment marks a payment that is not REFUNDED as REFUNDED, with no reply, and leaves one that
-- is missing or REFUNDED alone; a known message changes nothing.
pub refund-settled :
    (db : Prisma)
    → Documented db
    → (env : Env) (message_id : Key) (cmd : PaymentCommand) (s : PaymentStore)
    → refund db env message_id cmd s
      ≡ settled env message_id
          (received message_id s)
          (refund_outcome cmd (by_id cmd.payment_id s) s)
          s
unfolding refund
refund-settled db law env message_id cmd s = rw (is_in_memory law) (
    consume_lem env message_id (λ t. refund_found in_memory env cmd (by_id cmd.payment_id t) t) s _
      _ refl (refund_found_lem env cmd s _ refl) (refund_inbox cmd s _))
