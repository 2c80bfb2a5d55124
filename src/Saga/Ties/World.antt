-- ===== src/Saga/Ties/World.antt =====
-- What the services hold of an order, and when a message or a row agrees with it.
use hotdrop_orchestration.Base.{
  Key, ℕ, zero, suc, String, ◌≡◌, Option, none, some, List, [], ◌∷◌, All, All-append, truthy,
}
use hotdrop_orchestration.Contracts.{Payload, ReplyData}
use hotdrop_orchestration.Messaging.{Env, OutboxMessage, outbox_row, create_outbox_message}
use hotdrop_orchestration.Order.{Order, OrderLine, SagaInstance, order_key}
use hotdrop_orchestration.Order.Orchestrator.{or_unchanged}
use hotdrop_orchestration.Order.Orchestrator.Plan.{Message, send}
use hotdrop_orchestration.Order.Service.{line_inputs}
use hotdrop_orchestration.Kitchen.{Reservation, reservation_key, reservation_order_key}
use hotdrop_orchestration.Kitchen.Service.{items_of}
use hotdrop_orchestration.Payment.{Payment, payment_key, payment_order_key}
use hotdrop_orchestration.Dispatch.{CourierAssignment, assignment_key}
use hotdrop_orchestration.Saga.System.{System}
use hotdrop_orchestration.Saga.Ties.Tables.{Found, All-map}

-- What the customer has agreed to.
pub record Terms : Type 0 where
  pub customer_id : Key
  pub delivery_address : String
  pub total_cents : ℕ
  pub lines : List OrderLine

abbrev pub terms_of : Order → Terms
terms_of o = record {
  customer_id = o.customer_id;
  delivery_address = o.delivery_address;
  total_cents = o.total_cents;
  lines = o.lines;
}

abbrev pub assignment_order_key : CourierAssignment → Key
assignment_order_key a = a.order_id

-- The rows by which messages are judged.
pub record World : Type 0 where
  pub orders : List Order
  pub reservations : List Reservation
  pub payments : List Payment
  pub assignments : List CourierAssignment

abbrev pub world : System → World
world s = record {
  orders = s.orders.tables.orders;
  reservations = s.kitchen.tables.reservations;
  payments = s.payment.tables.payments;
  assignments = s.dispatch.tables.assignments;
}

abbrev pub When : (Key → Type 0) → Option Key → Type 0
When P none = Unit
When P (some k) = P k

module _ (w : World) where
  abbrev pub Agreed : Key → Terms → Type 0
  Agreed id t = Found order_key terms_of id t w.orders

  abbrev pub Reserved : Key → Key → Type 0
  Reserved id k = Found reservation_key reservation_order_key k id w.reservations

  abbrev pub Paid : Key → Key → Type 0
  Paid id k = Found payment_key payment_order_key k id w.payments

  abbrev pub Assigned : Key → Key → Type 0
  Assigned id k = Found assignment_key assignment_order_key k id w.assignments

  -- The ids name rows that are of the order.
  abbrev pub Names : Key → Option Key → Option Key → Option Key → Type 0
  Names id reservation payment assignment =
      When (Reserved id) reservation × When (Paid id) payment × When (Assigned id) assignment

  abbrev pub IsAnswerOf : Key → Option ReplyData → Type 0
  IsAnswerOf id none = Unit
  IsAnswerOf id (some d) = Names id d.reservation_id d.payment_id d.assignment_id

  -- The customer of the order.
  abbrev pub IsHers : Key → Key → Type 0
  IsHers id customer = (t : Terms) × Agreed id t × (t.customer_id ≡ customer)

  -- A message says of an order what the customer agreed to, and names rows of that order only.
  abbrev pub Agrees : Payload → Type 0
  Agrees (Payload.reserve_body c) =
      (t : Terms) × Agreed c.order_id t × (line_inputs t.lines ≡ c.lines)
  Agrees (Payload.release_body c) = Reserved c.order_id c.reservation_id
  Agrees (Payload.accept_body c) = (t : Terms) × Agreed c.order_id t
  Agrees (Payload.authorize_body c) =
      (t : Terms) × Agreed c.order_id t
      × (t.customer_id ≡ c.customer_id)
      × (t.total_cents ≡ c.amount_cents)
  Agrees (Payload.payment_body c) = Paid c.order_id c.payment_id
  Agrees (Payload.assign_body c) =
      (t : Terms) × Agreed c.order_id t × (t.delivery_address ≡ c.delivery_address)
  Agrees (Payload.unassign_body c) = Assigned c.order_id c.assignment_id
  Agrees (Payload.reply_body r) = IsAnswerOf r.order_id r.result
  Agrees (Payload.customer_body e) = IsHers e.order_id e.customer_id
  Agrees (Payload.status_body e) = IsHers e.order_id e.customer_id
  Agrees (Payload.reason_body e) = IsHers e.order_id e.customer_id
  Agrees _ = Unit

  abbrev pub AgreesAll : List OutboxMessage → Type 0
  AgreesAll rows = All (λ m. Agrees m.payload) rows

  abbrev pub NamesOwn : SagaInstance → Type 0
  NamesOwn g = Names g.order_id g.reservation_id g.payment_id g.assignment_id

  -- What is due of a participant's row: the order is known, and the row says what was agreed.
  abbrev pub IsOrdered : Reservation → Type 0
  IsOrdered r = (t : Terms) × Agreed r.order_id t × (items_of (line_inputs t.lines) ≡ r.items)

  abbrev pub IsDue : Payment → Type 0
  IsDue p = (t : Terms) × Agreed p.order_id t × (t.total_cents ≡ p.amount_cents)

  abbrev pub IsWanted : CourierAssignment → Type 0
  IsWanted a = (t : Terms) × Agreed a.order_id t

-- Every row that one world shows, another one shows.
pub record Later (v w : World) : Type 0 where
  pub agreed : (id : Key) (t : Terms) → Agreed v id t → Agreed w id t
  pub reserved : (id k : Key) → Reserved v id k → Reserved w id k
  pub paid : (id k : Key) → Paid v id k → Paid w id k
  pub assigned : (id k : Key) → Assigned v id k → Assigned w id k

pub When-map : {P Q : Key → Type 0} (k : Option Key) → ((x : Key) → P x → Q x) → When P k → When Q k
When-map none f h = tt
When-map (some x) f h = f x h

module _ {v w : World} (l : Later v w) where
  Names-later : (id : Key) (r p a : Option Key) → Names v id r p a → Names w id r p a
  Names-later id r p a h =
      (When-map r (l.reserved id) h.0, When-map p (l.paid id) h.1, When-map a (l.assigned id) h.2)

  pub NamesOwn-later : (g : SagaInstance) → NamesOwn v g → NamesOwn w g
  NamesOwn-later g = Names-later g.order_id g.reservation_id g.payment_id g.assignment_id

  IsAnswerOf-later : (id : Key) (d : Option ReplyData) → IsAnswerOf v id d → IsAnswerOf w id d
  IsAnswerOf-later id none h = tt
  IsAnswerOf-later id (some d) h = Names-later id d.reservation_id d.payment_id d.assignment_id h

  pub Agrees-later : (body : Payload) → Agrees v body → Agrees w body
  Agrees-later (Payload.reserve_body c) h = (h.0, l.agreed c.order_id h.0 h.1, h.2)
  Agrees-later (Payload.release_body c) h = l.reserved c.order_id c.reservation_id h
  Agrees-later (Payload.accept_body c) h = (h.0, l.agreed c.order_id h.0 h.1)
  Agrees-later (Payload.authorize_body c) h = (h.0, l.agreed c.order_id h.0 h.1, h.2, h.3)
  Agrees-later (Payload.payment_body c) h = l.paid c.order_id c.payment_id h
  Agrees-later (Payload.assign_body c) h = (h.0, l.agreed c.order_id h.0 h.1, h.2)
  Agrees-later (Payload.unassign_body c) h = l.assigned c.order_id c.assignment_id h
  Agrees-later (Payload.reply_body r) h = IsAnswerOf-later r.order_id r.result h
  Agrees-later (Payload.customer_body e) h = (h.0, l.agreed e.order_id h.0 h.1, h.2)
  Agrees-later (Payload.status_body e) h = (h.0, l.agreed e.order_id h.0 h.1, h.2)
  Agrees-later (Payload.reason_body e) h = (h.0, l.agreed e.order_id h.0 h.1, h.2)
  Agrees-later (Payload.delivered_body _) h = tt
  Agrees-later (Payload.ticket_body _) h = tt

  pub AgreesAll-later : (rows : List OutboxMessage) → AgreesAll v rows → AgreesAll w rows
  AgreesAll-later rows h = All-map rows (λ m. Agrees-later m.payload) h

-- The rows of a new message agree where it does.
pub send-AgreesAll :
    (w : World) (env : Env) (n : ℕ) (ms : List Message) (out : List OutboxMessage)
    → All (λ m. Agrees w m.1) ms
    → AgreesAll w out
    → AgreesAll w (send env n ms out)
unfolding outbox_row create_outbox_message
send-AgreesAll w env n [] out new h = h
send-AgreesAll w env n ((type, body) ∷ ms) out new h =
    send-AgreesAll w env _ ms _ new.1 (All-append (λ m. Agrees w m.payload) out _ h (new.0, tt))

pub When-or_unchanged :
    (P : Key → Type 0) (k old : Option Key) → When P k → When P old → When P (or_unchanged k old)
When-or_unchanged P none old h g = g
When-or_unchanged P (some x) old h g = h

pub When-truthy : (P : Key → Type 0) (k : Option Key) → When P k → When P (truthy k)
When-truthy P none h = h
When-truthy P (some zero) h = tt
When-truthy P (some (suc x)) h = h
