-- ===== src/Order/Orchestrator/Live.antt =====
-- What a call of the orchestrator leaves of an order that has ended.
use hotdrop_orchestration.Base.{
  Key, ◌≡◌, ◌≢◌, refl, sym, ◌∙◌, subst, true, false, Option, none, some, arith, ◌==◌,
  first-modify_first_ne,
}
use hotdrop_orchestration.Contracts.{OrderStatus, SagaReply}
use hotdrop_orchestration.Messaging.{Env, InboxMessage}
use hotdrop_orchestration.Order.{Order, SagaInstance, OrderStore}
use hotdrop_orchestration.Order.Orchestrator.{is_terminal, is_cancellable, is_courier_assigned}
use hotdrop_orchestration.Order.Orchestrator.Plan.{
  Plan, Reaction, ignored, carried_out, refused, order_of, settled, effect, requested, planned,
  reply_reaction, delivery_reaction, cancel_reaction,
}

-- Only an order that has not ended is acted on.
pub reply_reaction_live :
    (r : SagaReply) (o : Order) (g : Option SagaInstance) (plan : Plan)
    → reply_reaction r (some o) g ≡ carried_out plan
    → is_terminal o.status ≡ false
reply_reaction_live r o none plan e = cc
reply_reaction_live r o (some g) plan e = ground arith

assigned_live :
    (status : OrderStatus) → is_courier_assigned status ≡ true → is_terminal status ≡ false
unfolding is_courier_assigned is_terminal
assigned_live OrderStatus.courier_assigned e = refl
assigned_live _ e = cc

cancellable_live :
    (status : OrderStatus) → is_cancellable status ≡ true → is_terminal status ≡ false
unfolding is_cancellable is_terminal
cancellable_live OrderStatus.placed e = refl
cancellable_live OrderStatus.portions_reserved e = refl
cancellable_live OrderStatus.payment_authorized e = refl
cancellable_live _ e = cc

pub delivery_reaction_live :
    (id : Key) (o : Order) (g : Option SagaInstance) (plan : Plan)
    → delivery_reaction id (some o) g ≡ carried_out plan
    → is_terminal o.status ≡ false
delivery_reaction_live id o none plan e = cc
delivery_reaction_live id o (some g) plan e = ground (arith, assigned_live o.status)

pub cancel_reaction_live :
    (id customer : Key) (o : Order) (g : Option SagaInstance) (plan : Plan)
    → cancel_reaction id customer (some o) g ≡ carried_out plan
    → is_terminal o.status ≡ false
cancel_reaction_live id customer o none plan e = cc
cancel_reaction_live id customer o (some g) plan e = ground (arith, cancellable_live o.status)

module _ (env : Env) (id k : Key) (s : OrderStore) (o : Order) (found : order_of k s ≡ some o)
    (over : is_terminal o.status ≡ true) where
  -- A plan for another order leaves this one.
  planned_other : (plan : Plan) → id ≢ k → order_of k (planned env id plan s) ≡ some o
  planned_other plan ne =
      first-modify_first_ne (λ x. x.id == id) (λ x. x.id == k)
        (λ x. record x { status = plan.status }) s.tables.orders (λ x. refl) (λ x e. ground arith)
      ∙ found

  -- What acts only on live orders leaves an order that has ended.
  abbrev LiveOnly : Reaction → Type 0
  LiveOnly r =
      (x : Order) (plan : Plan)
      → order_of id s ≡ some x
      → r ≡ carried_out plan
      → is_terminal x.status ≡ false

  apart : (plan : Plan) (r : Reaction) → LiveOnly r → r ≡ carried_out plan → id ≢ k
  apart plan r live e same =
      let f = live o plan (subst (λ x. order_of x s ≡ some o) (sym same) found) e in cc

  effect_keeps :
      (message_id : Key) (r : Reaction)
      → LiveOnly r
      → order_of k (effect env message_id id r s).1 ≡ some o
  effect_keeps m ignored live = found
  effect_keeps m (carried_out plan) live =
      planned_other plan (apart plan (carried_out plan) live refl)
  effect_keeps m (refused e) live = found

  pub settled_keeps :
      (message_id : Key) (seen : Option InboxMessage) (r : Reaction)
      → LiveOnly r
      → order_of k (settled env message_id id seen r s).1 ≡ some o
  settled_keeps m none r live = effect_keeps m r live
  settled_keeps m (some x) r live = found

  pub requested_keeps : (r : Reaction) → LiveOnly r → order_of k (requested env id r s).1 ≡ some o
  requested_keeps ignored live = found
  requested_keeps (carried_out plan) live =
      planned_other plan (apart plan (carried_out plan) live refl)
  requested_keeps (refused e) live = found
