-- ===== src/Dispatch/Announced.antt =====
-- The deliveries of the dispatch service over sequences of commands and timers: each is announced in
-- the outbox when it is made, and once.
use hotdrop_orchestration.Base.{
  Key, ℕ, suc, ◌+◌, String, ◌≡◌, refl, sym, ◌∙◌, ap, subst, Bool, false, Option, none, some, List,
  [], ◌∷◌, ◌++◌, arith, ◌==◌, ==_refl, ==_iff, Bool-cases, inl, inr, first, modify_first,
  first-modify_first_self, first-modify_first_ne, if◌then◌else◌,
}
use hotdrop_orchestration.Contracts.{
  MessageType, Payload, DeliveryEvent, DeliveryStatus, AssignCourierCommand, UnassignCourierCommand,
  delivery_event,
}
use hotdrop_orchestration.Prisma.{Prisma, Documented}
use hotdrop_orchestration.Messaging.{
  Env, OutboxMessage, InboxMessage, outbox_row, create_outbox_message,
}
use hotdrop_orchestration.Participant.Consume.{received, settled}
use hotdrop_orchestration.Dispatch.{
  CourierAssignment, Delivery, DispatchStore, is_delivered, is_cancelled_assignment,
}
use hotdrop_orchestration.Dispatch.Service.{assign_courier, complete_delivery, unassign_courier}
use hotdrop_orchestration.Dispatch.Assigning.{
  delivery_of, assignment_of, new_delivery, assigned, assign_courier-assigned,
}
use hotdrop_orchestration.Dispatch.Commands.{
  complete_outcome, unassign_outcome, complete_delivery-settled, unassign_courier-settled,
}

-- Whether a row is the delivered event of an order.
abbrev announces : Key → MessageType → Payload → Bool
announces k (delivery_event DeliveryEvent.delivered) (Payload.delivered_body e) = e.order_id == k
announces k _ _ = false

-- How many delivered events of an order the rows hold.
abbrev pub announced : Key → List OutboxMessage → ℕ
announced k [] = 0
announced k (row ∷ rows) =
    if announces k row.type row.payload then suc (announced k rows) else announced k rows

-- How many deliveries of an order were made.
abbrev pub made : Option Delivery → ℕ
made none = 0
made (some d) = if is_delivered d.status then 1 else 0

-- The outbox holds one delivered event of the order if its delivery is DELIVERED, and else none.
abbrev pub IsAnnounced : Key → DispatchStore → Type 0
IsAnnounced k s = announced k s.outbox ≡ made (delivery_of k s)

announced-append :
    (k : Key) (rows : List OutboxMessage) (row : OutboxMessage)
    → announced k (rows ++ row ∷ [])
      ≡ announced k rows + (if announces k row.type row.payload then 1 else 0)
announced-append k [] row = ground arith
announced-append k (x ∷ rows) row = ground (arith, announced-append k rows row)

-- What may happen to the database: a command, or the timer of any order.
pub data Step (db : Prisma) (s : DispatchStore) : DispatchStore → Type 0 where
  assigning :
      (env : Env) (mid : Key) (cmd : AssignCourierCommand) (courier : Option String)
      → Step db s (assign_courier db env mid cmd courier s).1
  unassigning :
      (env : Env) (mid : Key) (cmd : UnassignCourierCommand)
      → Step db s (unassign_courier db env mid cmd s).1
  timer : (env : Env) (order_id : Key) → Step db s (complete_delivery db env order_id s)

pub data Reach (db : Prisma) (s : DispatchStore) : DispatchStore → Type 0 where
  here : Reach db s s
  next : {t u : DispatchStore} → Reach db s t → Step db t u → Reach db s u

-- A reply is no announcement.
announced-quiet :
    (k : Key) (rows : List OutboxMessage) (row : OutboxMessage)
    → announces k row.type row.payload ≡ false
    → announced k (rows ++ row ∷ []) ≡ announced k rows
announced-quiet k rows row quiet = announced-append k rows row ∙ rw quiet (omega arith)

-- A delivery that is created was not made.
made-append :
    (k : Key) (ds : List Delivery) (d : Delivery)
    → is_delivered d.status ≡ false
    → made (first (λ x. x.order_id == k) (ds ++ d ∷ [])) ≡ made (first (λ x. x.order_id == k) ds)
made-append k [] d e = elim (Bool-cases (d.order_id == k)) [
  | inl own ↦ rw own (rw e refl)
  | inr other ↦ rw other refl
]
made-append k (x ∷ ds) d e = elim (Bool-cases (x.order_id == k)) [
  | inl own ↦ rw own refl
  | inr other ↦ rw other (made-append k ds d e)
]

-- One that is marked counts for its order.
made-own :
    (id : Key) (ds : List Delivery) (d : Delivery)
    → first (λ x. x.order_id == id) ds ≡ some d
    → is_delivered d.status ≡ false
    → made (
        first
          (λ x. x.order_id == id)
          (modify_first
            (λ x. x.order_id == id)
            (λ x. record x { status = DeliveryStatus.delivered })
            ds))
      ≡ made (first (λ x. x.order_id == id) ds) + (if id == id then 1 else 0)
unfolding is_delivered
made-own id ds d found e = rw (
  first-modify_first_self (λ x. x.order_id == id)
      (λ x. record x { status = DeliveryStatus.delivered }) ds d (λ x. refl) found,
  found,
  ==_refl id,
  e,
)

-- And for no other.
made-modify_first :
    (k id : Key) (ds : List Delivery) (d : Delivery)
    → first (λ x. x.order_id == id) ds ≡ some d
    → is_delivered d.status ≡ false
    → made (
        first
          (λ x. x.order_id == k)
          (modify_first
            (λ x. x.order_id == id)
            (λ x. record x { status = DeliveryStatus.delivered })
            ds))
      ≡ made (first (λ x. x.order_id == k) ds) + (if id == k then 1 else 0)
made-modify_first k id ds d found e = elim (Bool-cases (id == k)) [
  | inl own ↦
      subst
        (λ j.
          made (
            first (λ x. x.order_id == j)
              (modify_first (λ x. x.order_id == id)
                (λ x. record x { status = DeliveryStatus.delivered }) ds))
          ≡ made (first (λ x. x.order_id == j) ds) + (if id == j then 1 else 0))
        ((==_iff id k).0 own) (made-own id ds d found e)
  | inr other ↦
      rw
        (
          first-modify_first_ne (λ x. x.order_id == id) (λ x. x.order_id == k)
              (λ x. record x { status = DeliveryStatus.delivered }) ds (λ x. refl)
              (λ x h. ground arith),
          other,
        )
        (omega arith)
]

module _ (k : Key) where
  assigned-IsAnnounced :
      (env : Env) (mid : Key) (cmd : AssignCourierCommand) (known : Option InboxMessage)
      (courier : Option String) (d : Option Delivery) (s : DispatchStore)
      → IsAnnounced k s
      → IsAnnounced k (assigned env mid cmd known courier d s).1
  unfolding outbox_row create_outbox_message is_delivered
  assigned-IsAnnounced env mid cmd (some _) (some _) d s h = h
  assigned-IsAnnounced env mid cmd (some _) none d s h = h
  assigned-IsAnnounced env mid cmd none none d s h = announced-quiet k s.outbox _ refl ∙ h
  assigned-IsAnnounced env mid cmd none (some courier) (some d) s h = h
  assigned-IsAnnounced env mid cmd none (some courier) none s h =
      announced-quiet k s.outbox _ refl
      ∙ h
      ∙ sym (
          made-append k s.tables.deliveries
            (new_delivery env (suc s.drawn) cmd.order_id (env.cuid s.drawn)) refl)

  unassigned-IsAnnounced :
      (env : Env) (mid : Key) (cmd : UnassignCourierCommand) (known : Option InboxMessage)
      (found : Option CourierAssignment) (s : DispatchStore)
      → IsAnnounced k s
      → IsAnnounced k (settled env mid known (unassign_outcome cmd found s) s).1
  unassigned-IsAnnounced env mid cmd (some _) found s h = h
  unassigned-IsAnnounced env mid cmd none none s h = h
  unassigned-IsAnnounced env mid cmd none (some a) s h =
      elim (Bool-cases (is_cancelled_assignment a.status)) [ inl e ↦ rw e h | inr e ↦ rw e h ]

  completed-IsAnnounced :
      (env : Env) (id : Key) (found : Option Delivery) (s : DispatchStore)
      → delivery_of id s ≡ found
      → IsAnnounced k s
      → IsAnnounced k (complete_outcome env id found s)
  unfolding outbox_row create_outbox_message
  completed-IsAnnounced env id none s e h = h
  completed-IsAnnounced env id (some d) s e h = elim (Bool-cases (is_delivered d.status)) [
    | inl over ↦ rw over h
    | inr open_one ↦ rw open_one (
        announced-append k s.outbox _
        ∙ ap (λ n. n + (if id == k then 1 else 0)) h
        ∙ sym (made-modify_first k id s.tables.deliveries d e open_one))
  ]

  Step-IsAnnounced :
      {db : Prisma}
      → Documented db
      → {s t : DispatchStore} → Step db s t
      → IsAnnounced k s
      → IsAnnounced k t
  Step-IsAnnounced {db = db} law {s = s} (assigning env mid cmd courier) h =
      subst (λ o. IsAnnounced k o.1) (sym (assign_courier-assigned db law env mid cmd courier s))
        (assigned-IsAnnounced env mid cmd (received mid s) courier (delivery_of cmd.order_id s) s h)
  Step-IsAnnounced {db = db} law {s = s} (unassigning env mid cmd) h =
      subst (λ o. IsAnnounced k o.1) (sym (unassign_courier-settled db law env mid cmd s))
        (unassigned-IsAnnounced env mid cmd (received mid s) (assignment_of cmd.assignment_id s) s
          h)
  Step-IsAnnounced {db = db} law {s = s} (timer env id) h =
      subst (IsAnnounced k) (sym (complete_delivery-settled db law env id s))
        (completed-IsAnnounced env id (delivery_of id s) s refl h)

-- How many deliveries an order has.
abbrev pub taken : Option Delivery → ℕ
taken none = 0
taken (some d) = 1

-- After the timer the delivery that there is was made.
timed-made :
    (env : Env) (id : Key) (found : Option Delivery) (s : DispatchStore)
    → delivery_of id s ≡ found
    → made (delivery_of id (complete_outcome env id found s)) ≡ taken found
unfolding is_delivered
timed-made env id none s e = rw e refl
timed-made env id (some d) s e = elim (Bool-cases (is_delivered d.status)) [
  | inl over ↦ rw over (rw e (rw over refl))
  | inr open_one ↦ rw open_one (
      rw
        (first-modify_first_self (λ x. x.order_id == id)
          (λ x. record x { status = DeliveryStatus.delivered }) s.tables.deliveries d (λ x. refl) e)
        refl)
]

Reach-kept :
    {db : Prisma}
    → Documented db
    → {s t : DispatchStore} (order_id : Key) → Reach db s t
    → IsAnnounced order_id s
    → IsAnnounced order_id t
Reach-kept law k here h = h
Reach-kept law k (next r step) h = Step-IsAnnounced k law step (Reach-kept law k r h)

-- Each delivery is announced when it is made, and once. However assignments, compensations and
-- delivery timers follow one another, early, late or repeated, and whatever the couriers: where the
-- outbox holds one delivered event of an order if its delivery is DELIVERED and none if not, it does
-- so again; and once the order's timer fires then, it holds one if the order has a delivery and none
-- if not.
pub Reach-IsAnnounced :
    {db : Prisma}
    → Documented db
    → {s t : DispatchStore} (env : Env) (order_id : Key) → Reach db s t
    → IsAnnounced order_id s
    → IsAnnounced order_id t
      × (announced order_id (complete_delivery db env order_id t).outbox
          ≡ taken (delivery_of order_id t))
Reach-IsAnnounced {db = db} law {t = t} env k r h =
    let now = Reach-kept law k r h in
    let next_one = Step-IsAnnounced k law (timer env k) now in
    (
      now,
      next_one
          ∙ ap (λ u. made (delivery_of k u)) (complete_delivery-settled db law env k t)
          ∙ timed-made env k (delivery_of k t) t refl,
    )
