-- ===== src/Saga/Ties/Charges.antt =====
-- The payment that a command of the order service names, across the services.
use hotdrop_orchestration.Base.{◌≡◌, sym, ◌∙◌, ap, subst, some, ◌==◌}
use hotdrop_orchestration.Contracts.{Payload, PaymentCommand}
use hotdrop_orchestration.Prisma.{Prisma, Documented}
use hotdrop_orchestration.Messaging.{OutboxMessage}
use hotdrop_orchestration.Order.{Order}
use hotdrop_orchestration.Order.Orchestrator.Plan.{order_of}
use hotdrop_orchestration.Payment.{Payment}
use hotdrop_orchestration.Payment.Outcomes.{by_id}
use hotdrop_orchestration.Saga.System.{System, Reach, IsRow}
use hotdrop_orchestration.Saga.Ties.Tables.{first-All}
use hotdrop_orchestration.Saga.Ties.World.{world, Agrees, IsDue, Paid}
use hotdrop_orchestration.Saga.Ties.Interleaving.{IsTied, Reach-IsTied, row-Agrees}

module _ (t : System) (c : PaymentCommand) where
  -- The payment of the order, for what the order costs.
  abbrev pub ChargesTotal : Type 0
  ChargesTotal =
      (p : Payment) × (o : Order) × (by_id c.payment_id t.payment ≡ some p)
      × (p.order_id ≡ c.order_id)
      × (order_of c.order_id t.orders ≡ some o)
      × (p.amount_cents ≡ o.total_cents)

  charges : IsTied t → Paid (world t) c.order_id c.payment_id → ChargesTotal
  charges h (p, found, hers) =
      let (own, (terms, (o, known, same), costs)) =
        first-All (λ r. Paid (world t) r.order_id r.id × IsDue (world t) r)
          (λ x. x.id == c.payment_id) t.payment.tables.payments p found h.payment.0 in
      (
        p,
        o,
        found,
        hers,
        subst (λ k. order_of k t.orders ≡ some o) hers known,
        sym costs ∙ ap (λ x. x.total_cents) (sym same),
      )

-- However the requests, deliveries of messages (late, repeated, in any order), timers and sweeps of
-- the four services interleave, where every id that cuid() gives is new to its table: from systems
-- whose messages and rows agree, every CapturePayment, VoidPayment and RefundPayment in the outbox of
-- the order service names a payment that is there, that is of the order of the command, and whose
-- amount is the total of that order.
pub Reach-ChargesTotal :
    {db : Prisma}
    → Documented db
    → {s t : System} → Reach db s t
    → IsTied s
    → (m : OutboxMessage) (c : PaymentCommand) → IsRow m t.orders.outbox
    → m.payload ≡ Payload.payment_body c
    → ChargesTotal t c
Reach-ChargesTotal law {t = t} r h m c row body =
    let tied = Reach-IsTied law r h in
    charges t c tied (subst (Agrees (world t)) body (row-Agrees (world t) m row tied.orders.0))
