-- ===== src/Participant/Consume.antt =====
-- The laws of `consume`: what a command leaves in a participant's database, on every branch.
use hotdrop_orchestration.Base.{
  Key, suc, ◌≡◌, Option, none, some, [], ◌∷◌, ◌++◌, arith, ◌==◌, ==_refl, first, first-append,
}
use hotdrop_orchestration.Contracts.{SagaReply, Payload, saga_reply}
use hotdrop_orchestration.Result.{Result, ok, err, step_failure}
use hotdrop_orchestration.Prisma.{in_memory}
use hotdrop_orchestration.Messaging.{Env, Store, InboxMessage, outbox_row, create_outbox_message}
use hotdrop_orchestration.Participant.{Work, consume}

module _ {D : Type 0} where
  abbrev pub received : Key → Store D → Option InboxMessage
  received message_id s = first (λ m. m.message_id == message_id) s.inbox

  -- The reply is added to the outbox.
  abbrev pub replied : Env → Option SagaReply → Store D → Store D
  replied env none s = s
  replied env (some reply) s = record s {
    outbox =
        s.outbox
        ++ outbox_row env (create_outbox_message env s.drawn saga_reply (Payload.reply_body reply))
          ∷ [];
    drawn = suc s.drawn;
  }

  abbrev pub recorded : Env → Key → Store D → Store D
  recorded env message_id s = record s {
    inbox = s.inbox ++ record { message_id = message_id; processed_at = env.now } ∷ [];
  }

  -- What a command comes to, from what its work came to: a success is kept with its reply, a failed
  -- step leaves nothing but its reply, any other error leaves nothing.
  abbrev pub concluded :
      Env → Key → Result (Option SagaReply × Store D) → Store D → Result (Unit {0}) × Store D
  concluded env message_id (ok (reply, t)) s =
      (ok tt, recorded env message_id (replied env reply t))
  concluded env message_id (err (step_failure reply)) s =
      (ok tt, recorded env message_id (replied env (some reply) s))
  concluded env message_id (err e) s = (err e, s)

  abbrev pub settled :
      Env
      → Key
      → Option InboxMessage
      → Result (Option SagaReply × Store D)
      → Store D
      → Result (Unit {0}) × Store D
  settled env message_id (some _) out s = (ok tt, s)
  settled env message_id none out s = concluded env message_id out s

  -- The work leaves the inbox alone.
  abbrev pub KeepsInbox : Store D → Result (Option SagaReply × Store D) → Type 0
  KeepsInbox s (ok (reply, t)) = t.inbox ≡ s.inbox
  KeepsInbox s (err e) = Unit

  module _ (env : Env) (message_id : Key) (work : Work D) (s : Store D) where
    pub consume_lem :
        (seen : Option InboxMessage) (out : Result (Option SagaReply × Store D))
        → received message_id s ≡ seen
        → work s ≡ out
        → KeepsInbox s out
        → consume in_memory env message_id work s ≡ settled env message_id seen out s
    unfolding consume
    consume_lem (some m) out seen e kept = ground arith
    consume_lem none (ok (none, t)) new e kept = ground arith
    consume_lem none (ok (some reply, t)) new e kept = ground arith
    consume_lem none (err (step_failure reply)) new e kept = ground arith
    consume_lem none (err _) new e kept = ground arith

  -- A command that was handled, also by a failed reply, is known afterwards.
  pub settled_records :
      (env : Env) (message_id : Key) (s : Store D) (seen : Option InboxMessage)
      (out : Result (Option SagaReply × Store D))
      → received message_id s ≡ seen
      → KeepsInbox s out
      → (settled env message_id seen out s).0 ≡ ok tt
      → (x : InboxMessage) × (received message_id (settled env message_id seen out s).1 ≡ some x)
  settled_records env m s (some x) out seen kept done = (x, seen)
  settled_records env m s none (ok (none, t)) new kept done =
      (_, first-append (λ y. y.message_id == m) t.inbox _ (rw kept new) (==_refl m))
  settled_records env m s none (ok (some reply, t)) new kept done =
      (_, first-append (λ y. y.message_id == m) t.inbox _ (rw kept new) (==_refl m))
  settled_records env m s none (err (step_failure reply)) new kept done =
      (_, first-append (λ y. y.message_id == m) s.inbox _ new (==_refl m))
  settled_records env m s none (err _) new kept done = cc
