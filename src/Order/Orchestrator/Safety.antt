-- ===== src/Order/Orchestrator/Safety.antt =====
-- Runs of many calls of the orchestrator.
use hotdrop_orchestration.Base.{
  Key, ◌≡◌, refl, sym, ◌∙◌, subst, true, Option, none, some, List, [], ◌∷◌, ◌==◌, first-append_left,
  first-append, ==_refl,
}
use hotdrop_orchestration.Contracts.{SagaReply}
use hotdrop_orchestration.Result.{ok}
use hotdrop_orchestration.Prisma.{Prisma, Documented}
use hotdrop_orchestration.Messaging.{Env, InboxMessage}
use hotdrop_orchestration.Order.{Order, OrderStore}
use hotdrop_orchestration.Order.Orchestrator.{is_terminal, on_reply, on_delivered, cancel_order}
use hotdrop_orchestration.Order.Orchestrator.Plan.{
  Reaction, ignored, carried_out, refused, received, order_of, saga_of, settled, effect, requested,
  reply_reaction, delivery_reaction, cancel_reaction,
}
use hotdrop_orchestration.Order.Orchestrator.Refinement.{
  on_reply-settled, on_delivered-settled, cancel_order-requested,
}
use hotdrop_orchestration.Order.Orchestrator.Live.{
  reply_reaction_live, delivery_reaction_live, cancel_reaction_live, settled_keeps, requested_keeps,
}

-- One call of the orchestrator, with the world that it sees.
pub data Call : Type 0 where
  reply : Env → Key → SagaReply → Call
  delivered : Env → Key → Key → Call
  cancel : Env → Key → Key → Call

module _ (db : Prisma) where
  unfoldable pub step : Call → OrderStore → OrderStore
  step (reply env m r) s = (on_reply db env m r s).1
  step (delivered env m id) s = (on_delivered db env m id s).1
  step (cancel env id customer) s = (cancel_order db env id customer s).1

  unfoldable pub run : List Call → OrderStore → OrderStore
  unfolding step
  run [] s = s
  run (c ∷ cs) s = run cs (step c s)

module _ (db : Prisma) (law : Documented db) where
  pub step_keeps :
      (c : Call) (k : Key) (s : OrderStore) (o : Order)
      → order_of k s ≡ some o
      → is_terminal o.status ≡ true
      → order_of k (step db c s) ≡ some o
  unfolding step
  step_keeps (reply env m r) k s o found over =
      subst (λ t. order_of k t.1 ≡ some o) (sym (on_reply-settled db law env m r s))
        (settled_keeps env r.order_id k s o found over m _ _ λ x plan f e.
          reply_reaction_live r x (saga_of r.order_id s) plan
            (subst (λ y. reply_reaction r y (saga_of r.order_id s) ≡ carried_out plan) f e))
  step_keeps (delivered env m id) k s o found over =
      subst (λ t. order_of k t.1 ≡ some o) (sym (on_delivered-settled db law env m id s))
        (settled_keeps env id k s o found over m _ _ λ x plan f e.
          delivery_reaction_live id x (saga_of id s) plan
            (subst (λ y. delivery_reaction id y (saga_of id s) ≡ carried_out plan) f e))
  step_keeps (cancel env id customer) k s o found over =
      subst (λ t. order_of k t.1 ≡ some o) (sym (cancel_order-requested db law env id customer s))
        (requested_keeps env id k s o found over _ λ x plan f e.
          cancel_reaction_live id customer x (saga_of id s) plan
            (subst (λ y. cancel_reaction id customer y (saga_of id s) ≡ carried_out plan) f e))

-- An order that is COMPLETED, CANCELLED or REJECTED is left as it is by every sequence of replies,
-- delivery events and cancellations, for this order or for others.
pub run_ended :
    (db : Prisma)
    → Documented db
    → (cs : List Call) (k : Key) (s : OrderStore) (o : Order) → order_of k s ≡ some o
    → is_terminal o.status ≡ true
    → order_of k (run db cs s) ≡ some o
unfolding run
run_ended db law [] k s o found over = found
run_ended db law (c ∷ cs) k s o found over =
    run_ended db law cs k (step db c s) o (step_keeps db law c k s o found over) over

module _ (env : Env) (id : Key) (m : Key) (s : OrderStore) (x : InboxMessage)
    (known : received m s ≡ some x) where
  effect_known : (n : Key) (r : Reaction) → received m (effect env n id r s).1 ≡ some x
  effect_known n ignored = first-append_left (λ y. y.message_id == m) s.inbox _ x known
  effect_known n (carried_out plan) = first-append_left (λ y. y.message_id == m) s.inbox _ x known
  effect_known n (refused e) = known

  settled_known :
      (n : Key) (seen : Option InboxMessage) (r : Reaction)
      → received m (settled env n id seen r s).1 ≡ some x
  settled_known n none r = effect_known n r
  settled_known n (some y) r = known

  requested_known : (r : Reaction) → received m (requested env id r s).1 ≡ some x
  requested_known ignored = known
  requested_known (carried_out plan) = known
  requested_known (refused e) = known

module _ (db : Prisma) (law : Documented db) where
  step_known :
      (c : Call) (m : Key) (s : OrderStore) (x : InboxMessage)
      → received m s ≡ some x
      → received m (step db c s) ≡ some x
  unfolding step
  step_known (reply env n r) m s x known =
      subst (λ t. received m t.1 ≡ some x) (sym (on_reply-settled db law env n r s))
        (settled_known env r.order_id m s x known n _ _)
  step_known (delivered env n id) m s x known =
      subst (λ t. received m t.1 ≡ some x) (sym (on_delivered-settled db law env n id s))
        (settled_known env id m s x known n _ _)
  step_known (cancel env id customer) m s x known =
      subst (λ t. received m t.1 ≡ some x) (sym (cancel_order-requested db law env id customer s))
        (requested_known env id m s x known _)

  run_known :
      (cs : List Call) (m : Key) (s : OrderStore) (x : InboxMessage)
      → received m s ≡ some x
      → received m (run db cs s) ≡ some x
  unfolding run
  run_known [] m s x known = known
  run_known (c ∷ cs) m s x known = run_known cs m (step db c s) x (step_known c m s x known)

  known_ignored :
      (env : Env) (m : Key) (r : SagaReply) (s : OrderStore) (x : InboxMessage)
      → received m s ≡ some x
      → on_reply db env m r s ≡ (ok tt, s)
  known_ignored env m r s x known =
      on_reply-settled db law env m r s
      ∙ subst
          (λ y.
            settled env m r.order_id y
              (reply_reaction r (order_of r.order_id s) (saga_of r.order_id s)) s
            ≡ (ok tt, s))
          (sym known) refl

-- A handled message is in the inbox afterwards.
pub settled_records :
    (env : Env) (m id : Key) (r : Reaction) (s : OrderStore) (seen : Option InboxMessage)
    → received m s ≡ seen
    → (settled env m id seen r s).0 ≡ ok tt
    → (x : InboxMessage) × (received m (settled env m id seen r s).1 ≡ some x)
settled_records env m id r s (some x) seen done = (x, seen)
settled_records env m id ignored s none new done =
    (_, first-append (λ y. y.message_id == m) s.inbox _ new (==_refl m))
settled_records env m id (carried_out plan) s none new done =
    (_, first-append (λ y. y.message_id == m) s.inbox _ new (==_refl m))
settled_records env m id (refused e) s none new done = cc

-- A reply that was handled is never handled again: whatever is called in between, a message under
-- its id, with any content, is acknowledged and changes nothing.
pub on_reply_once :
    (db : Prisma)
    → Documented db
    → (env later : Env) (m : Key) (r again : SagaReply) (s : OrderStore) (cs : List Call)
    → (on_reply db env m r s).0 ≡ ok tt
    → let t = run db cs (on_reply db env m r s).1 in on_reply db later m again t ≡ (ok tt, t)
on_reply_once db law env later m r again s cs done =
    let e = on_reply-settled db law env m r s in
    let (x, kept) =
      settled_records env m r.order_id _ s (received m s) refl (subst (λ t. t.0 ≡ ok tt) e done) in
    known_ignored db law later m again _ x
      (run_known db law cs m _ x (subst (λ t. received m t.1 ≡ some x) (sym e) kept))
