-- ===== src/Participant.antt =====
-- What the three participants share: kitchen.service.ts, payment.service.ts and dispatch.service.ts
-- have one text for `consume` and `outbox`. A saga step failure rolls the work back and is sent as a
-- failed reply in a transaction of its own; any other error goes on to the broker.
pub mod Consume
pub mod Delivery
use hotdrop_orchestration.Base.{Key, Option, none, some}
use hotdrop_orchestration.Contracts.{SagaReply, Payload, saga_reply}
use hotdrop_orchestration.Result.{Result, ok, err, Tx, step_failure, ◌>>=◌, ◌>>◌}
use hotdrop_orchestration.Prisma.{Prisma}
use hotdrop_orchestration.Messaging.{Env, Store, write_outbox, write_inbox, find_inbox}

-- The work of a handler: it may write, and returns a reply or null.
abbrev pub Work : Type 0 → Type 0
Work D = Tx (Store D) (Option SagaReply)

module _ {D : Type 0} (db : Prisma) (env : Env) where
  -- if (reply) { await tx.outboxMessage.create({ data: this.outbox(reply) }) }
  unfoldable pub send_reply : Option SagaReply → Tx (Store D) (Unit {0})
  unfolding write_outbox
  send_reply none s = ok (tt, s)
  send_reply (some reply) s = write_outbox db env saga_reply (Payload.reply_body reply) s

  unfoldable pub with_reply : Key → Work D → Tx (Store D) (Unit {0})
  unfolding send_reply write_inbox
  with_reply message_id work = do reply ← work; send_reply reply; write_inbox db env message_id

  -- The catch clause.
  unfoldable pub recover : Key → Result (Unit {0}) × Store D → Result (Unit {0}) × Store D
  unfolding send_reply write_inbox
  recover message_id (ok tt, s) = (ok tt, s)
  recover message_id (err (step_failure reply), s) =
      db.transaction (send_reply (some reply) >> write_inbox db env message_id) s
  recover message_id (err e, s) = (err e, s)

  unfoldable pub consume : Key → Work D → Store D → Result (Unit {0}) × Store D
  unfolding find_inbox with_reply recover
  consume message_id work s = elim (find_inbox db env message_id s) [
    | some _ ↦ (ok tt, s)
    | none ↦ recover message_id (db.transaction (with_reply message_id work) s)
  ]
