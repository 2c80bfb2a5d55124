-- ===== src/Saga/Ties/Payments.antt =====
-- The payment service's transactions, and its payments and replies beside the orders.
use hotdrop_orchestration.Base.{
  Key, ℕ, Bool, true, false, ltb, ◌≡◌, refl, subst, Option, none, some, [], ◌∷◌, ◌==◌, ==_iff,
  ==_refl, first-append, first_holds, Bool-cases, inl, inr,
}
use hotdrop_orchestration.Contracts.{
  Payload, MessageType, SagaCommand, PaymentStatus, AuthorizePaymentCommand, PaymentCommand,
  command,
}
use hotdrop_orchestration.Prisma.{Prisma, Documented}
use hotdrop_orchestration.Messaging.{Env, OutboxMessage}
use hotdrop_orchestration.Participant.Delivery.{acknowledged_state}
use hotdrop_orchestration.Participant.Consume.{received}
use hotdrop_orchestration.Payment.{
  Payment, PaymentTables, PaymentStore, is_authorized, is_refunded, payment_key, payment_order_key,
}
use hotdrop_orchestration.Payment.Service.{authorize, capture, void_payment, refund}
use hotdrop_orchestration.Payment.Commands.{
  authorize-settled, capture-settled, void_payment-settled, refund-settled,
}
use hotdrop_orchestration.Payment.Outcomes.{
  Outcome, by_id, by_order, with_status, new_payment, authorize_outcome, capture_outcome,
  void_outcome, refund_outcome,
}
use hotdrop_orchestration.Payment.Consumer.{
  payment_consumer, PaymentMessage, on_authorize, on_capture, on_void, on_refund,
}
use hotdrop_orchestration.Saga.{payment_hears, payment_message}
use hotdrop_orchestration.Saga.System.{IsNew}
use hotdrop_orchestration.Saga.Ties.Tables.{
  IsTable, first-All, append-Found, modify_first-Found, append-IsTable, modify_first-IsTable,
}
use hotdrop_orchestration.Saga.Ties.World.{World, Agrees, IsDue, Paid}
use hotdrop_orchestration.Saga.Ties.Replies.{
  Later-refl, IsTied, Moved, stayed, Works, OutcomeTied, settled-Moved,
}

module _ (w : World) where
  abbrev pub with_payments : PaymentTables → World
  with_payments t = record w { payments = t.payments }

  abbrev pub HasDue : PaymentTables → Type 0
  HasDue t = IsTable payment_key payment_order_key (IsDue w) t.payments

  abbrev pub PaymentsTied : PaymentStore → Type 0
  PaymentsTied = IsTied with_payments HasDue

  abbrev pub PaymentsMoved : PaymentStore → PaymentStore → Type 0
  PaymentsMoved = Moved with_payments HasDue

  abbrev Tied : PaymentStore → Outcome → Type 0
  Tied = OutcomeTied with_payments HasDue

  Works-still : (s : PaymentStore) → HasDue s.tables → Works with_payments HasDue s s
  Works-still s h = (Later-refl (with_payments s.tables), h, refl)

  restatused :
      (id : Key) (status : PaymentStatus) (s : PaymentStore)
      → HasDue s.tables
      → Works with_payments HasDue s (with_status id status s)
  restatused id status s h = (
    record {
      agreed = λ k t x. x;
      reserved = λ k i x. x;
      paid = λ k i x.
          modify_first-Found payment_key payment_order_key (λ p. p.id == id)
            (λ p. record p { status = status }) (λ p. refl) (λ p. refl) i k s.tables.payments x;
      assigned = λ k i x. x;
    },
    modify_first-IsTable payment_key payment_order_key (IsDue w) (λ p. p.id == id)
        (λ p. record p { status = status }) s.tables.payments (λ p. refl) (λ p. refl) (λ p x. x) h,
    refl,
  )

  authorize-Tied :
      (env : Env) (declined : Bool) (cmd : AuthorizePaymentCommand) (found : Option Payment)
      (s : PaymentStore)
      → by_order cmd.order_id s ≡ found
      → IsNew payment_key (env.cuid s.drawn) s.tables.payments
      → Agrees w (Payload.authorize_body cmd)
      → HasDue s.tables
      → Tied s (authorize_outcome env declined cmd found s)
  authorize-Tied env declined cmd (some p) s e new asked h =
      let same =
        (==_iff p.order_id cmd.order_id).0
          (first_holds (λ x. x.order_id == cmd.order_id) s.tables.payments p e) in
      let own =
        first-All (λ r. Paid (with_payments s.tables) r.order_id r.id × IsDue w r)
          (λ x. x.order_id == cmd.order_id) s.tables.payments p e h in
      (Works-still s h, (tt, subst (λ k. Paid (with_payments s.tables) k p.id) same own.0, tt))
  authorize-Tied env true cmd none s e new asked h = tt
  authorize-Tied env false cmd none s e new asked h =
      let row = new_payment env s.drawn cmd in
      (
        (
          record {
            agreed = λ k t x. x;
            reserved = λ k i x. x;
            paid = λ k i x.
                append-Found payment_key payment_order_key i k s.tables.payments (row ∷ []) x;
            assigned = λ k i x. x;
          },
          append-IsTable payment_key payment_order_key (IsDue w) s.tables.payments row new
              (asked.0, asked.1, asked.3) h,
          refl,
        ),
        (
          tt,
          (
            row,
            first-append (λ x. x.id == row.id) s.tables.payments row new (==_refl row.id),
            refl,
          ),
          tt,
        ),
      )

  capture-Tied :
      (cmd : PaymentCommand) (found : Option Payment) (s : PaymentStore)
      → HasDue s.tables
      → Tied s (capture_outcome cmd found s)
  capture-Tied cmd none s h = tt
  capture-Tied cmd (some p) s h = (restatused cmd.payment_id PaymentStatus.captured s h, tt)

  void-Tied :
      (cmd : PaymentCommand) (found : Option Payment) (s : PaymentStore)
      → HasDue s.tables
      → Tied s (void_outcome cmd found s)
  void-Tied cmd none s h = Works-still s h
  void-Tied cmd (some p) s h = elim (Bool-cases (is_authorized p.status)) [
    | inl e ↦ rw e (restatused cmd.payment_id PaymentStatus.voided s h)
    | inr e ↦ rw e (Works-still s h)
  ]

  refund-Tied :
      (cmd : PaymentCommand) (found : Option Payment) (s : PaymentStore)
      → HasDue s.tables
      → Tied s (refund_outcome cmd found s)
  refund-Tied cmd none s h = Works-still s h
  refund-Tied cmd (some p) s h = elim (Bool-cases (is_refunded p.status)) [
    | inl e ↦ rw e (Works-still s h)
    | inr e ↦ rw e (restatused cmd.payment_id PaymentStatus.refunded s h)
  ]

  abbrev IsAsked : PaymentMessage → Type 0
  IsAsked (on_authorize draw cmd) = Agrees w (Payload.authorize_body cmd)
  IsAsked _ = Unit

  abbrev AllAsked : Option PaymentMessage → Type 0
  AllAsked none = Unit
  AllAsked (some msg) = IsAsked msg

  message_asked :
      (draw : ℕ) (type : MessageType) (body : Payload)
      → Agrees w body
      → AllAsked (payment_message draw type body)
  unfolding payment_message
  message_asked draw (command SagaCommand.authorize_payment) (Payload.authorize_body cmd) h = h
  message_asked draw (command SagaCommand.capture_payment) (Payload.payment_body cmd) h = tt
  message_asked draw (command SagaCommand.void_payment) (Payload.payment_body cmd) h = tt
  message_asked draw (command SagaCommand.refund_payment) (Payload.payment_body cmd) h = tt
  message_asked draw _ _ h = tt

  module _ {db : Prisma} (law : Documented db) where
    consumed_moved :
        (env : Env) (rate : ℕ) (m : Key) (msg : PaymentMessage) (s : PaymentStore)
        → IsNew payment_key (env.cuid s.drawn) s.tables.payments
        → IsAsked msg
        → PaymentsTied s
        → PaymentsMoved s (payment_consumer db env rate m msg s).1
    unfolding payment_consumer
    consumed_moved env rate m (on_authorize draw cmd) s new asked h =
        rw
          (
            acknowledged_state (authorize db env rate draw m cmd s),
            authorize-settled db law env rate draw m cmd s,
          )
          (settled-Moved with_payments HasDue env m (received m s) _ s
            (authorize-Tied env (ltb draw rate) cmd _ s refl new asked h.0) h)
    consumed_moved env rate m (on_capture cmd) s new asked h =
        rw (acknowledged_state (capture db env m cmd s), capture-settled db law env m cmd s)
          (settled-Moved with_payments HasDue env m (received m s) _ s
            (capture-Tied cmd (by_id cmd.payment_id s) s h.0) h)
    consumed_moved env rate m (on_void cmd) s new asked h =
        rw
          (
            acknowledged_state (void_payment db env m cmd s),
            void_payment-settled db law env m cmd s,
          )
          (settled-Moved with_payments HasDue env m (received m s) _ s
            (void-Tied cmd (by_id cmd.payment_id s) s h.0) h)
    consumed_moved env rate m (on_refund cmd) s new asked h =
        rw (acknowledged_state (refund db env m cmd s), refund-settled db law env m cmd s)
          (settled-Moved with_payments HasDue env m (received m s) _ s
            (refund-Tied cmd (by_id cmd.payment_id s) s h.0) h)

    hears_cases :
        (env : Env) (rate draw : ℕ) (m : OutboxMessage) (s : PaymentStore)
        (msg : Option PaymentMessage)
        → payment_message draw m.type m.payload ≡ msg
        → IsNew payment_key (env.cuid s.drawn) s.tables.payments
        → AllAsked msg
        → PaymentsTied s
        → PaymentsMoved s (payment_hears db env rate draw (some m) s)
    unfolding payment_hears
    hears_cases env rate draw m s none e new asked h =
        rw (e, payment_hears) (stayed with_payments HasDue s h)
    hears_cases env rate draw m s (some msg) e new asked h =
        rw (e, payment_hears) (consumed_moved env rate m.id msg s new asked h)

    -- The payment service hears a message that agrees with the orders.
    pub heard_moved :
        (env : Env) (rate draw : ℕ) (m : OutboxMessage) (s : PaymentStore)
        → IsNew payment_key (env.cuid s.drawn) s.tables.payments
        → Agrees w m.payload
        → PaymentsTied s
        → PaymentsMoved s (payment_hears db env rate draw (some m) s)
    heard_moved env rate draw m s new asked h =
        hears_cases env rate draw m s _ refl new (message_asked draw m.type m.payload asked) h
