-- ===== src/Messaging.antt =====
-- packages/messaging/src: the rows of the outbox and inbox tables and the wire envelope
-- (types.ts, envelope.ts), `createOutboxMessage` (outbox-message.ts), and what every service that
-- owns a database keeps beside its own tables. Children: the relay and the inbox guard.
pub mod Relay
pub mod Outbox
pub mod Prefix
pub mod Inbox
pub mod Guard
mod Examples
use hotdrop_orchestration.Base.{Key, ℕ, suc, String, Option, none, List, [], ◌∷◌}
use hotdrop_orchestration.Contracts.{MessageType, Payload}
use hotdrop_orchestration.Result.{Result, ok, err, Tx}
use hotdrop_orchestration.Prisma.{Prisma}

pub record OutboxMessage : Type 0 where
  pub id : Key
  pub type : MessageType
  pub payload : Payload
  pub created_at : ℕ
  pub published_at : Option ℕ
  pub traceparent : Option String

pub record NewOutboxMessage : Type 0 where
  pub id : Key
  pub type : MessageType
  pub payload : Payload
  pub traceparent : Option String

pub record InboxMessage : Type 0 where
  pub message_id : Key
  pub processed_at : ℕ

pub record MessageEnvelope : Type 0 where
  pub message_id : Key
  pub body : Payload
  pub traceparent : Option String

-- What a call reads of the world: the clock in milliseconds, the trace context that
-- `propagation.inject` writes into a carrier, and the ids that crypto.randomUUID and cuid() give,
-- by the number of ids drawn before.
pub record Env : Type 0 where
  pub now : ℕ
  pub active_trace : Option String
  pub random_uuid : ℕ → Key
  pub cuid : ℕ → Key

-- A service's database: its own tables, its outbox and inbox, and how many ids were drawn for the
-- rows that are kept.
pub record Store (D : Type 0) : Type 0 where
  pub tables : D
  pub outbox : List OutboxMessage
  pub inbox : List InboxMessage
  pub drawn : ℕ

unfoldable pub create_outbox_message : Env → ℕ → MessageType → Payload → NewOutboxMessage
create_outbox_message env n type payload = record {
  id = env.random_uuid n;
  type = type;
  payload = payload;
  traceparent = env.active_trace;
}

-- The row that the data of `tx.outboxMessage.create` becomes: the store fills `created_at` and
-- leaves `published_at` null.
unfoldable pub outbox_row : Env → NewOutboxMessage → OutboxMessage
outbox_row env m = record {
  id = m.id;
  type = m.type;
  payload = m.payload;
  created_at = env.now;
  published_at = none;
  traceparent = m.traceparent;
}

module _ {D : Type 0} (db : Prisma) (env : Env) where
  -- tx.outboxMessage.create({ data: outbox(createOutboxMessage(type, payload)) })
  unfoldable pub write_outbox : MessageType → Payload → Tx (Store D) (Unit {0})
  unfolding create_outbox_message outbox_row
  write_outbox type payload s =
      let row = outbox_row env (create_outbox_message env s.drawn type payload) in
      elim (db.create [] row s.outbox) [
        | ok rows ↦ ok (tt, record s { outbox = rows; drawn = suc s.drawn })
        | err e ↦ err e
      ]

  -- tx.inboxMessage.create({ data: { messageId } })
  unfoldable pub write_inbox : Key → Tx (Store D) (Unit {0})
  write_inbox message_id s =
      let row : InboxMessage = record { message_id = message_id; processed_at = env.now } in
      elim (db.create ((λ m. m.message_id) ∷ []) row s.inbox) [
        | ok rows ↦ ok (tt, record s { inbox = rows })
        | err e ↦ err e
      ]

  -- prisma.inboxMessage.findUnique({ where: { messageId } })
  unfoldable pub find_inbox : Key → Store D → Option InboxMessage
  find_inbox message_id s = db.find_unique (λ m. m.message_id) message_id s.inbox
