-- ===== src/Saga/Ties/Replies.antt =====
-- `consume`, and what a participant's outbox says beside what the services hold.
use hotdrop_orchestration.Base.{Key, ◌≡◌, refl, sym, subst, Option, none, some, All-append}
use hotdrop_orchestration.Contracts.{SagaReply, Payload}
use hotdrop_orchestration.Result.{Result, ok, err, step_failure}
use hotdrop_orchestration.Messaging.{Env, Store, InboxMessage, outbox_row, create_outbox_message}
use hotdrop_orchestration.Participant.Consume.{settled, recorded, replied}
use hotdrop_orchestration.Saga.Ties.World.{World, Later, Agrees, AgreesAll, AgreesAll-later}

pub Later-refl : (v : World) → Later v v
Later-refl v = record {
  agreed = λ id t h. h;
  reserved = λ id k h. h;
  paid = λ id k h. h;
  assigned = λ id k h. h;
}

-- The world as the tables of the service make it, and what is kept of the tables.
module _ {D : Type 0} (W : D → World) (IsKept : D → Type 0) where
  abbrev pub IsTied : Store D → Type 0
  IsTied s = IsKept s.tables × AgreesAll (W s.tables) s.outbox

  -- A transaction from one store to another.
  abbrev pub Moved : Store D → Store D → Type 0
  Moved s t = Later (W s.tables) (W t.tables) × IsTied t

  pub stayed : (s : Store D) → IsTied s → Moved s s
  stayed s h = (Later-refl (W s.tables), h)

  abbrev pub Works : Store D → Store D → Type 0
  Works s t = Later (W s.tables) (W t.tables) × IsKept t.tables × (t.outbox ≡ s.outbox)

  -- What the work of a command comes to is in agreement.
  abbrev pub OutcomeTied : Store D → Result (Option SagaReply × Store D) → Type 0
  OutcomeTied s (ok (none, t)) = Works s t
  OutcomeTied s (ok (some r, t)) = Works s t × Agrees (W t.tables) (Payload.reply_body r)
  OutcomeTied s (err (step_failure r)) = Agrees (W s.tables) (Payload.reply_body r)
  OutcomeTied s (err _) = Unit

  outbox_later :
      (s t : Store D)
      → Works s t
      → AgreesAll (W s.tables) s.outbox
      → AgreesAll (W t.tables) t.outbox
  outbox_later s t wk h =
      subst (AgreesAll (W t.tables)) (sym wk.2) (AgreesAll-later wk.0 s.outbox h)

  pub Moved-still : (s t : Store D) → Works s t → IsTied s → Moved s t
  Moved-still s t wk h = (wk.0, (wk.1, outbox_later s t wk h.1))

  answered-Moved :
      (env : Env) (m : Key) (r : SagaReply) (s t : Store D)
      → Works s t
      → Agrees (W t.tables) (Payload.reply_body r)
      → AgreesAll (W s.tables) s.outbox
      → Moved s (recorded env m (replied env (some r) t))
  unfolding outbox_row create_outbox_message
  answered-Moved env m r s t wk answer h = (
    wk.0,
    (
      wk.1,
      All-append (λ x. Agrees (W t.tables) x.payload) t.outbox _ (outbox_later s t wk h)
          (answer, tt),
    ),
  )

  pub settled-Moved :
      (env : Env) (m : Key) (seen : Option InboxMessage) (out : Result (Option SagaReply × Store D))
      (s : Store D)
      → OutcomeTied s out
      → IsTied s
      → Moved s (settled env m seen out s).1
  settled-Moved env m (some x) out s o h = stayed s h
  settled-Moved env m none (ok (none, t)) s o h = Moved-still s t o h
  settled-Moved env m none (ok (some r, t)) s o h = answered-Moved env m r s t o.0 o.1 h.1
  settled-Moved env m none (err (step_failure r)) s o h =
      answered-Moved env m r s s (Later-refl (W s.tables), h.0, refl) o h.1
  settled-Moved env m none (err _) s o h = stayed s h
