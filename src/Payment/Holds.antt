-- ===== src/Payment/Holds.antt =====
-- The payments of the service over sequences of commands.
use hotdrop_orchestration.Base.{
  Key, ℕ, ◌≡◌, refl, sym, ◌∙◌, ap, subst, Bool, true, false, Option, none, some, List, [], ◌∷◌,
  ◌++◌, arith, ltb, ◌==◌, first, modify_first, Bool-cases, inl, inr, first-append_left, found_here,
}
use hotdrop_orchestration.Contracts.{PaymentStatus, AuthorizePaymentCommand, PaymentCommand}
use hotdrop_orchestration.Result.{ok, err, step_failure}
use hotdrop_orchestration.Prisma.{Prisma, Documented}
use hotdrop_orchestration.Messaging.{Env, InboxMessage}
use hotdrop_orchestration.Participant.Consume.{received, replied, recorded, settled}
use hotdrop_orchestration.Payment.{Payment, PaymentStore, is_authorized, is_refunded}
use hotdrop_orchestration.Payment.Service.{
  authorize, capture, void_payment, refund, authorized_reply,
}
use hotdrop_orchestration.Payment.Commands.{
  authorize-settled, capture-settled, void_payment-settled, refund-settled,
}
use hotdrop_orchestration.Payment.Outcomes.{
  Outcome, by_id, by_order, new_payment, authorize_outcome, capture_outcome, void_outcome,
  refund_outcome,
}

-- How a command may change the payments: not at all, by a hold for an order that has none, or by
-- the status of one payment.
data Change (ps : List Payment) : List Payment → Type 0 where
  same : Change ps ps
  hold : (p : Payment) → first (λ q. q.order_id == p.order_id) ps ≡ none → Change ps (ps ++ p ∷ [])
  restatus :
      (f : Payment → Bool) (status : PaymentStatus)
      → Change ps (modify_first f (λ p. record p { status = status }) ps)

abbrev Changes : PaymentStore → Outcome → Type 0
Changes s (ok (reply, t)) = Change s.tables.payments t.tables.payments
Changes s (err e) = Unit

settled-Changes :
    (env : Env) (mid : Key) (seen : Option InboxMessage) (out : Outcome) (s : PaymentStore)
    → Changes s out
    → Change s.tables.payments (settled env mid seen out s).1.tables.payments
settled-Changes env mid (some m) out s c = same
settled-Changes env mid none (ok (none, t)) s c = c
settled-Changes env mid none (ok (some reply, t)) s c = c
settled-Changes env mid none (err (step_failure reply)) s c = same
settled-Changes env mid none (err _) s c = same

authorize-Changes :
    (env : Env) (declined : Bool) (cmd : AuthorizePaymentCommand) (s : PaymentStore)
    (found : Option Payment)
    → by_order cmd.order_id s ≡ found
    → Changes s (authorize_outcome env declined cmd found s)
authorize-Changes env declined cmd s (some p) e = same
authorize-Changes env true cmd s none e = tt
authorize-Changes env false cmd s none e = hold (new_payment env s.drawn cmd) e

capture-Changes :
    (cmd : PaymentCommand) (s : PaymentStore) (found : Option Payment)
    → Changes s (capture_outcome cmd found s)
capture-Changes cmd s none = tt
capture-Changes cmd s (some p) = restatus _ _

void-Changes :
    (cmd : PaymentCommand) (s : PaymentStore) (found : Option Payment)
    → Changes s (void_outcome cmd found s)
void-Changes cmd s none = same
void-Changes cmd s (some p) = elim (Bool-cases (is_authorized p.status)) [
  | inl e ↦ rw e (restatus _ _)
  | inr e ↦ rw e same
]

refund-Changes :
    (cmd : PaymentCommand) (s : PaymentStore) (found : Option Payment)
    → Changes s (refund_outcome cmd found s)
refund-Changes cmd s none = same
refund-Changes cmd s (some p) = elim (Bool-cases (is_refunded p.status)) [
  | inl e ↦ rw e same
  | inr e ↦ rw e (restatus _ _)
]

-- What may happen to the payments: any command, in any order.
pub data Step (db : Prisma) (s : PaymentStore) : PaymentStore → Type 0 where
  authorizing :
      (env : Env) (failure_rate draw : ℕ) (mid : Key) (cmd : AuthorizePaymentCommand)
      → Step db s (authorize db env failure_rate draw mid cmd s).1
  capturing :
      (env : Env) (mid : Key) (cmd : PaymentCommand) → Step db s (capture db env mid cmd s).1
  voiding :
      (env : Env) (mid : Key) (cmd : PaymentCommand) → Step db s (void_payment db env mid cmd s).1
  refunding : (env : Env) (mid : Key) (cmd : PaymentCommand) → Step db s (refund db env mid cmd s).1

pub data Reach (db : Prisma) (s : PaymentStore) : PaymentStore → Type 0 where
  here : Reach db s s
  next : {t u : PaymentStore} → Reach db s t → Step db t u → Reach db s u

Step-Change :
    {db : Prisma}
    → Documented db
    → {s t : PaymentStore} → Step db s t
    → Change s.tables.payments t.tables.payments
Step-Change {db = db} law {s = s} (authorizing env rate draw mid cmd) =
    subst (λ o. Change s.tables.payments o.1.tables.payments)
      (sym (authorize-settled db law env rate draw mid cmd s))
      (settled-Changes env mid (received mid s)
        (authorize_outcome env (ltb draw rate) cmd (by_order cmd.order_id s) s) s
        (authorize-Changes env (ltb draw rate) cmd s (by_order cmd.order_id s) refl))
Step-Change {db = db} law {s = s} (capturing env mid cmd) =
    subst (λ o. Change s.tables.payments o.1.tables.payments)
      (sym (capture-settled db law env mid cmd s))
      (settled-Changes env mid (received mid s) (capture_outcome cmd (by_id cmd.payment_id s) s) s
        (capture-Changes cmd s (by_id cmd.payment_id s)))
Step-Change {db = db} law {s = s} (voiding env mid cmd) =
    subst (λ o. Change s.tables.payments o.1.tables.payments)
      (sym (void_payment-settled db law env mid cmd s))
      (settled-Changes env mid (received mid s) (void_outcome cmd (by_id cmd.payment_id s) s) s
        (void-Changes cmd s (by_id cmd.payment_id s)))
Step-Change {db = db} law {s = s} (refunding env mid cmd) =
    subst (λ o. Change s.tables.payments o.1.tables.payments)
      (sym (refund-settled db law env mid cmd s))
      (settled-Changes env mid (received mid s) (refund_outcome cmd (by_id cmd.payment_id s) s) s
        (refund-Changes cmd s (by_id cmd.payment_id s)))

-- The payment of an order is there, with its id and amount.
abbrev pub Kept : Key → Payment → List Payment → Type 0
Kept order_id p ps =
    (q : Payment) × (first (λ x. x.order_id == order_id) ps ≡ some q)
    × (q.id ≡ p.id)
    × (q.amount_cents ≡ p.amount_cents)

restatus-Kept :
    (k : Key) (f : Payment → Bool) (status : PaymentStatus) (ps : List Payment) (x : Payment)
    → first (λ p. p.order_id == k) ps ≡ some x
    → Kept k x (modify_first f (λ p. record p { status = status }) ps)
restatus-Kept k f status [] x e = cc
restatus-Kept k f status (q ∷ ps) x e = elim (Bool-cases (f q)) [
  | inl hit ↦ elim (Bool-cases (q.order_id == k)) [
    | inl hers ↦
        rw (hit, hers)
          (
            _,
            refl,
            ap (λ p. p.id) (found_here (λ p. p.order_id == k) q x ps hers e),
            ap (λ p. p.amount_cents) (found_here (λ p. p.order_id == k) q x ps hers e),
          )
    | inr later ↦ rw (hit, later) (x, ground arith, refl, refl)
  ]
  | inr miss ↦ elim (Bool-cases (q.order_id == k)) [
    | inl hers ↦
        rw (miss, hers)
          (
            q,
            refl,
            ap (λ p. p.id) (found_here (λ p. p.order_id == k) q x ps hers e),
            ap (λ p. p.amount_cents) (found_here (λ p. p.order_id == k) q x ps hers e),
          )
    | inr later ↦ rw (miss, later) (restatus-Kept k f status ps x (ground arith))
  ]
]

Change-Kept :
    (k : Key) (p : Payment) {ps qs : List Payment} → Change ps qs → Kept k p ps → Kept k p qs
Change-Kept k p same h = h
Change-Kept k p {ps = ps} (hold x e) h =
    (h.0, first-append_left (λ x. x.order_id == k) ps (x ∷ []) h.0 h.1, h.2, h.3)
Change-Kept k p {ps = ps} (restatus f status) h =
    let n = restatus-Kept k f status ps h.0 h.1 in (n.0, n.1, n.2 ∙ h.2, n.3 ∙ h.3)

stays :
    {db : Prisma}
    → Documented db
    → {s t : PaymentStore} (k : Key) (p : Payment) → Reach db s t
    → Kept k p s.tables.payments
    → Kept k p t.tables.payments
stays law k p here h = h
stays law k p (next r step) h = Change-Kept k p (Step-Change law step) (stays law k p r h)

-- Once an order has a payment, an AuthorizePayment for it that comes at any later time under a
-- message id that is not in the inbox is answered with that payment's id, whatever the gateway would
-- have drawn, and changes no payment.
pub authorize_once :
    {db : Prisma} (law : Documented db) {s t : PaymentStore} (p : Payment) (env : Env)
    (failure_rate draw : ℕ) (message_id : Key) (cmd : AuthorizePaymentCommand)
    → by_order cmd.order_id s ≡ some p
    → Reach db s t
    → received message_id t ≡ none
    → authorize db env failure_rate draw message_id cmd t
      ≡ (ok tt, recorded env message_id (replied env (some (authorized_reply cmd.order_id p.id)) t))
authorize_once {db = db} law {t = t} p env rate draw mid cmd e r new =
    let kept = stays law cmd.order_id p r (p, e, refl, refl) in
    authorize-settled db law env rate draw mid cmd t ∙ rw (new, kept.1) (rw kept.2 refl)
