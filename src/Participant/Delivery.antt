-- ===== src/Participant/Delivery.antt =====
-- The consumers of the participants: a handler acknowledges a message once its service call has
-- returned, and a call that throws leaves the message to be delivered again.
use hotdrop_orchestration.Base.{Key, ◌≡◌, refl, subst, sym, Bool, true, false, Option, some, arith}
use hotdrop_orchestration.Result.{Result, ok, err}
use hotdrop_orchestration.Prisma.{in_memory}
use hotdrop_orchestration.Messaging.{Env, Store, InboxMessage}
use hotdrop_orchestration.Participant.{Work, consume}
use hotdrop_orchestration.Participant.Consume.{received, settled, settled_records, KeepsInbox}
use hotdrop_orchestration.Contracts.{SagaReply}

-- await this.service.handler(env.messageId, env.data); ack(ctx);
unfoldable pub acknowledged : {A S : Type 0} → Result A × S → Bool × S
acknowledged (ok a, s) = (true, s)
acknowledged (err e, s) = (false, s)

pub acknowledged_ok :
    {S : Type 0} (o : Result (Unit {0}) × S) → (acknowledged o).0 ≡ true → o.0 ≡ ok tt
unfolding acknowledged
acknowledged_ok (ok tt, s) e = refl
acknowledged_ok (err x, s) e = cc

pub acknowledged_state : {A S : Type 0} (o : Result A × S) → (acknowledged o).1 ≡ o.1
unfolding acknowledged
acknowledged_state (ok a, s) = refl
acknowledged_state (err x, s) = refl

module _ {D : Type 0} where
  -- A known message is acknowledged and changes nothing.
  pub consume_known :
      (env : Env) (m : Key) (work : Work D) (s : Store D) (x : InboxMessage)
      → received m s ≡ some x
      → consume in_memory env m work s ≡ (ok tt, s)
  unfolding consume
  consume_known env m work s x e = ground arith

  -- An acknowledged message is known.
  pub acknowledged-known :
      (env : Env) (m : Key) (s : Store D) (out : Result (Option SagaReply × Store D))
      (o : Result (Unit {0}) × Store D)
      → o ≡ settled env m (received m s) out s
      → KeepsInbox s out
      → (acknowledged o).0 ≡ true
      → (x : InboxMessage) × (received m (acknowledged o).1 ≡ some x)
  acknowledged-known env m s out o e kept acked =
      let (x, known) =
        settled_records env m s (received m s) out refl kept
          (subst (λ r. r.0 ≡ ok tt) e (acknowledged_ok o acked)) in
      (
        x,
        subst (λ t. received m t ≡ some x) (sym (acknowledged_state o))
            (subst (λ r. received m r.1 ≡ some x) (sym e) known),
      )
