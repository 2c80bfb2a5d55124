-- ===== src/Saga/Ties/Plans.antt =====
-- The orchestrator's plans: what their messages say of the order, and which rows they name.
use hotdrop_orchestration.Base.{
  Key, ◌≡◌, refl, sym, ◌∙◌, subst, Option, none, some, List, ◌++◌, ◌==◌, All, All-append,
  Bool-cases, truthy, inl, inr,
}
use hotdrop_orchestration.Contracts.{
  SagaReply, SagaStep, ReplyStatus, ReplyData, SagaCommand, Payload, ok_status, failed_status,
}
use hotdrop_orchestration.Order.{Order, SagaInstance}
use hotdrop_orchestration.Order.Orchestrator.{
  is_terminal, is_courier_assigned, is_cancelled, is_cancellable, reason_of,
}
use hotdrop_orchestration.Order.Orchestrator.Plan.{
  Message, Plan, plan_of, Reaction, carried_out, planned_or_refused, reply_reaction,
  delivery_reaction, cancel_reaction, capture_plan, cancel_plan, forward, backward, when_held,
  void_of, release_of, unassign_of, undone,
}
use hotdrop_orchestration.Saga.Ties.World.{
  World, Agreed, Reserved, Paid, Assigned, Names, When, When-or_unchanged, When-truthy, IsAnswerOf,
  IsHers, Agrees, NamesOwn, terms_of,
}

-- A plan for an order says what is agreed and names rows of that order.
abbrev pub PlanTied : World → Key → Plan → Type 0
PlanTied w id plan =
    All (λ m. Agrees w m.1) plan.messages
    × ((g : SagaInstance) → g.order_id ≡ id → NamesOwn w g → NamesOwn w (plan.saga g))

abbrev pub PlansTied : World → Key → Option Plan → Type 0
PlansTied w id none = Unit
PlansTied w id (some plan) = PlanTied w id plan

abbrev pub ReactionTied : World → Key → Reaction → Type 0
ReactionTied w id (carried_out plan) = PlanTied w id plan
ReactionTied w id _ = Unit

module _ (w : World) (o : Order) where
  abbrev AllAgree : List Message → Type 0
  AllAgree ms = All (λ m. Agrees w m.1) ms

  when_held-Agrees :
      (k : Option Key) (c : SagaCommand) (body : Key → Payload)
      → When (λ x. Agrees w (body x)) k
      → AllAgree (when_held o k c body)
  when_held-Agrees none c body h = tt
  when_held-Agrees (some x) c body h = (h, tt)

  void_agrees : (k : Option Key) → When (Paid w o.id) k → AllAgree (void_of o k)
  void_agrees k h =
      when_held-Agrees (truthy k) SagaCommand.void_payment _ (When-truthy (Paid w o.id) k h)

  release_agrees : (k : Option Key) → When (Reserved w o.id) k → AllAgree (release_of o k)
  release_agrees k h =
      when_held-Agrees (truthy k) SagaCommand.release_portions _ (When-truthy (Reserved w o.id) k h)

  unassign_agrees : (k : Option Key) → When (Assigned w o.id) k → AllAgree (unassign_of o k)
  unassign_agrees k h =
      when_held-Agrees (truthy k) SagaCommand.unassign_courier _ (When-truthy (Assigned w o.id) k h)

  told : Agreed w o.id (terms_of o) → IsHers w o.id o.customer_id
  told known = (terms_of o, known, refl)

  module _ (g : SagaInstance) (known : Agreed w o.id (terms_of o))
      (names : Names w o.id g.reservation_id g.payment_id g.assignment_id) where
    undone_agrees : AllAgree (undone o g)
    undone_agrees =
        All-append (λ m. Agrees w m.1) (unassign_of o g.assignment_id ++ void_of o g.payment_id)
          (release_of o g.reservation_id)
          (All-append (λ m. Agrees w m.1) (unassign_of o g.assignment_id) (void_of o g.payment_id)
            (unassign_agrees g.assignment_id names.2) (void_agrees g.payment_id names.1))
          (release_agrees g.reservation_id names.0)

    undoing : (reason : _) → PlanTied w o.id (backward o g reason SagaStep.accept_order)
    undoing reason = (
      All-append (λ m. Agrees w m.1) (undone o g) _ undone_agrees (told known, (told known, tt)),
      λ x same h. h,
    )

    backward_tied : (reason : _) (step : SagaStep) → PlanTied w o.id (backward o g reason step)
    backward_tied reason SagaStep.reserve_portions = ((told known, (told known, tt)), λ x same h. h)
    backward_tied reason SagaStep.authorize_payment = undoing reason
    backward_tied reason SagaStep.accept_order = undoing reason
    backward_tied reason SagaStep.assign_courier = undoing reason
    backward_tied reason SagaStep.capture_payment = undoing reason

    cancel_tied : PlanTied w o.id (cancel_plan o g)
    cancel_tied = (
      All-append (λ m. Agrees w m.1) (void_of o g.payment_id ++ release_of o g.reservation_id) _
          (All-append (λ m. Agrees w m.1) (void_of o g.payment_id) (release_of o g.reservation_id)
            (void_agrees g.payment_id names.1) (release_agrees g.reservation_id names.0))
          (told known, (told known, tt)),
      λ x same h. h,
    )

  forward_tied :
      (step : SagaStep) (d : Option ReplyData)
      → Agreed w o.id (terms_of o)
      → IsAnswerOf w o.id d
      → PlansTied w o.id (forward o step d)
  forward_tied SagaStep.reserve_portions (some d) known h = (
    (told known, ((terms_of o, known, refl, refl), tt)),
    λ g same n. (
      When-or_unchanged (Reserved w g.order_id) d.reservation_id g.reservation_id
          (subst (λ k. When (Reserved w k) d.reservation_id) (sym same) h.0) n.0,
      n.1,
      n.2,
    ),
  )
  forward_tied SagaStep.authorize_payment (some d) known h = (
    (told known, ((terms_of o, known), tt)),
    λ g same n. (
      n.0,
      When-or_unchanged (Paid w g.order_id) d.payment_id g.payment_id
          (subst (λ k. When (Paid w k) d.payment_id) (sym same) h.1) n.1,
      n.2,
    ),
  )
  forward_tied SagaStep.accept_order d known h =
      ((told known, (told known, ((terms_of o, known, refl), tt))), λ g same n. n)
  forward_tied SagaStep.assign_courier (some d) known h = (
    (told known, tt),
    λ g same n. (
      n.0,
      n.1,
      When-or_unchanged (Assigned w g.order_id) d.assignment_id g.assignment_id
          (subst (λ k. When (Assigned w k) d.assignment_id) (sym same) h.2) n.2,
    ),
  )
  forward_tied SagaStep.capture_payment d known h = ((told known, (told known, tt)), λ g same n. n)
  forward_tied SagaStep.reserve_portions none known h = tt
  forward_tied SagaStep.authorize_payment none known h = tt
  forward_tied SagaStep.assign_courier none known h = tt

-- The rows that a message finds under its order's id.
abbrev pub OrderTied : World → Key → Option Order → Type 0
OrderTied w id none = Unit
OrderTied w id (some o) = (o.id ≡ id) × Agreed w o.id (terms_of o)

abbrev pub SagaTied : World → Key → Option SagaInstance → Type 0
SagaTied w id none = Unit
SagaTied w id (some g) = (g.order_id ≡ id) × NamesOwn w g

module _ (w : World) where
  own-Names :
      (o : Order) (g : SagaInstance) (id : Key)
      → o.id ≡ id
      → g.order_id ≡ id
      → NamesOwn w g
      → Names w o.id g.reservation_id g.payment_id g.assignment_id
  own-Names o g id e f h =
      subst (λ k. Names w k g.reservation_id g.payment_id g.assignment_id) (f ∙ sym e) h

  module _ (r : SagaReply) (o : Order) (g : SagaInstance) (held : SagaTied w r.order_id (some g))
      (known : OrderTied w r.order_id (some o)) (answer : IsAnswerOf w r.order_id r.result) where
    plan_tied : (status : ReplyStatus) → PlansTied w r.order_id (plan_of o g r status)
    plan_tied ok_status =
        subst (λ k. PlansTied w k (forward o r.step r.result)) known.0
          (forward_tied w o r.step r.result known.1
            (subst (λ k. IsAnswerOf w k r.result) (sym known.0) answer))
    plan_tied failed_status =
        subst (λ k. PlanTied w k (backward o g (reason_of r.reason) r.step)) known.0
          (backward_tied w o g known.1 (own-Names o g r.order_id known.0 held.0 held.1)
            (reason_of r.reason) r.step)

  planned_tied :
      (id : Key) (plan : Option Plan)
      → PlansTied w id plan
      → ReactionTied w id (planned_or_refused plan)
  planned_tied id none h = tt
  planned_tied id (some plan) h = h

  pub reply_tied :
      (r : SagaReply) (o : Option Order) (g : Option SagaInstance)
      → OrderTied w r.order_id o
      → SagaTied w r.order_id g
      → IsAnswerOf w r.order_id r.result
      → ReactionTied w r.order_id (reply_reaction r o g)
  reply_tied r none g known held answer = tt
  reply_tied r (some o) none known held answer = tt
  reply_tied r (some o) (some g) known held answer = elim (Bool-cases (is_terminal o.status)) [
    | inl over ↦ rw over tt
    | inr live ↦ rw live (planned_tied r.order_id _ (plan_tied r o g held known answer r.status))
  ]

  capture_tied :
      (id : Key) (o : Order) (k : Option Key)
      → Agreed w o.id (terms_of o)
      → When (Paid w id) k
      → ReactionTied w id (capture_plan id o k)
  capture_tied id o none known h = tt
  capture_tied id o (some k) known h = ((told w o known, (h, tt)), λ g same n. n)

  pub delivery_tied :
      (id : Key) (o : Option Order) (g : Option SagaInstance)
      → OrderTied w id o
      → SagaTied w id g
      → ReactionTied w id (delivery_reaction id o g)
  delivery_tied id none g known held = tt
  delivery_tied id (some o) none known held = tt
  delivery_tied id (some o) (some g) known held = elim (Bool-cases (is_courier_assigned o.status)) [
    | inl under_way ↦ rw under_way (
        capture_tied id o (truthy g.payment_id) known.1 (
          When-truthy (Paid w id) g.payment_id
            (subst (λ k. When (Paid w k) g.payment_id) held.0 held.1.1)))
    | inr other ↦ rw other tt
  ]

  pub cancel_reaction_tied :
      (id customer : Key) (o : Option Order) (g : Option SagaInstance)
      → OrderTied w id o
      → SagaTied w id g
      → ReactionTied w id (cancel_reaction id customer o g)
  cancel_reaction_tied id customer none g known held = tt
  cancel_reaction_tied id customer (some o) none known held = tt
  cancel_reaction_tied id customer (some o) (some g) known held =
      elim (Bool-cases (o.customer_id == customer)) [
        | inr other ↦ rw other tt
        | inl own ↦ elim (Bool-cases (is_cancelled o.status)) [
          | inl already ↦ rw (own, already) tt
          | inr open_order ↦ elim (Bool-cases (is_cancellable o.status)) [
            | inl early ↦
                rw (own, open_order, early)
                  (subst (λ k. PlanTied w k (cancel_plan o g)) known.0
                    (cancel_tied w o g known.1 (own-Names o g id known.0 held.0 held.1)))
            | inr late ↦ rw (own, open_order, late) tt
          ]
        ]
      ]
