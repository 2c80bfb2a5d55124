-- ===== src/Dispatch/Consumer.antt =====
-- apps/dispatch-service/src/dispatch/dispatch.consumer.ts: the messages of the queue
-- dispatch.commands.
use hotdrop_orchestration.Base.{
  Key, ◌≡◌, refl, sym, subst, String, Bool, true, Option, none, some, ◌∙◌, ap,
}
use hotdrop_orchestration.Contracts.{AssignCourierCommand, UnassignCourierCommand}
use hotdrop_orchestration.Result.{Result, ok, err}
use hotdrop_orchestration.Prisma.{Prisma, Documented, in_memory, is_in_memory}
use hotdrop_orchestration.Messaging.{Env, InboxMessage}
use hotdrop_orchestration.Participant.Consume.{received, settled}
use hotdrop_orchestration.Participant.Delivery.{acknowledged, consume_known, acknowledged-known}
use hotdrop_orchestration.Dispatch.{DispatchStore}
use hotdrop_orchestration.Dispatch.Service.{start_timer, assign_courier, unassign_courier}
use hotdrop_orchestration.Dispatch.Commands.{
  unassign_outcome, unassign_courier-settled, unassign_inbox,
}
use hotdrop_orchestration.Dispatch.Assigning.{
  delivery_of, assignment_of, assign_outcome, assign_courier-settled, assign_inbox,
}

-- A message, with the courier that the offers of an assignment find.
pub data DispatchMessage : Type 0 where
  on_assign : Option String → AssignCourierCommand → DispatchMessage
  on_unassign : UnassignCourierCommand → DispatchMessage

-- The handler of a message, and whether it is acknowledged.
unfoldable pub dispatch_consumer :
    Prisma → Env → Key → DispatchMessage → DispatchStore → Bool × DispatchStore
dispatch_consumer db env m (on_assign courier cmd) s =
    acknowledged (assign_courier db env m cmd courier s)
dispatch_consumer db env m (on_unassign cmd) s = acknowledged (unassign_courier db env m cmd s)

-- Starting the timer changes neither the database nor whether the call has returned.
pub timed :
    (order_id : Key) (courier : Option String) (o : Result (Unit {0}) × DispatchStore)
    → acknowledged (start_timer order_id courier o) ≡ acknowledged o
unfolding start_timer acknowledged
timed order_id courier (err e, s) = refl
timed order_id none (ok a, s) = refl
timed order_id (some c) (ok a, s) = refl

known_again :
    (env : Env) (m : Key) (msg : DispatchMessage) (s : DispatchStore) (x : InboxMessage)
    → received m s ≡ some x
    → dispatch_consumer in_memory env m msg s ≡ (true, s)
unfolding dispatch_consumer assign_courier unassign_courier acknowledged
known_again env m (on_assign courier cmd) s x e =
    timed cmd.order_id courier _ ∙ ap acknowledged (consume_known env m _ s x e)
known_again env m (on_unassign cmd) s x e = rw (consume_known env m _ s x e)

handled-known :
    (db : Prisma)
    → Documented db
    → (env : Env) (m : Key) (msg : DispatchMessage) (s : DispatchStore)
    → (dispatch_consumer db env m msg s).0 ≡ true
    → (x : InboxMessage) × (received m (dispatch_consumer db env m msg s).1 ≡ some x)
unfolding dispatch_consumer
handled-known db law env m (on_assign courier cmd) s acked =
    let out = assign_outcome env cmd courier (delivery_of cmd.order_id s) s in
    let e =
      ap acknowledged (assign_courier-settled db law env m cmd courier s)
      ∙ timed cmd.order_id courier (settled env m (received m s) out s) in
    subst (λ a. (x : InboxMessage) × (received m a.1 ≡ some x)) (sym e)
      (acknowledged-known env m s out _ refl
        (assign_inbox env cmd courier s (delivery_of cmd.order_id s))
        (subst (λ a. a.0 ≡ true) e acked))
handled-known db law env m (on_unassign cmd) s acked =
    acknowledged-known env m s (unassign_outcome cmd (assignment_of cmd.assignment_id s) s) _
      (unassign_courier-settled db law env m cmd s)
      (unassign_inbox cmd s (assignment_of cmd.assignment_id s)) acked

-- The broker delivers at least once: a message of the dispatch queue that was acknowledged and is
-- delivered again at once, with any content and whatever courier is found, is acknowledged again and
-- changes nothing in the database.
pub dispatch_redelivery :
    (db : Prisma)
    → Documented db
    → (env later : Env) (m : Key) (msg again : DispatchMessage) (s : DispatchStore)
    → (dispatch_consumer db env m msg s).0 ≡ true
    → let t = (dispatch_consumer db env m msg s).1 in
      dispatch_consumer db later m again t ≡ (true, t)
dispatch_redelivery db law env later m msg again s acked =
    let (x, known) = handled-known db law env m msg s acked in
    subst
      (λ d.
        dispatch_consumer d later m again (dispatch_consumer db env m msg s).1
        ≡ (true, (dispatch_consumer db env m msg s).1))
      (sym (is_in_memory law)) (known_again later m again _ x known)
