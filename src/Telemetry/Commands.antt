-- ===== src/Telemetry/Commands.antt =====
-- The rows that the participants write for each of their commands.
use hotdrop_orchestration.Base.{
  Key, ℕ, String, Bool, true, false, refl, sym, ◌∙◌, ap, subst, Option, none, some, List, inl, inr,
  Bool-cases, ltb,
}
use hotdrop_orchestration.Contracts.{
  ReservePortionsCommand, AuthorizePaymentCommand, PaymentCommand, AcceptOrderCommand,
  AssignCourierCommand, UnassignCourierCommand,
}
use hotdrop_orchestration.Result.{Result, ok, err}
use hotdrop_orchestration.Prisma.{Prisma, Documented}
use hotdrop_orchestration.Messaging.{Env}
use hotdrop_orchestration.Participant.Consume as Consume
use hotdrop_orchestration.Participant.Delivery.{acknowledged}
use hotdrop_orchestration.Kitchen.{Drop, Reservation, KitchenStore, is_released}
use hotdrop_orchestration.Kitchen.Inventory.{given}
use hotdrop_orchestration.Kitchen.Reserving.{reserve_outcome, reserve_portions-settled}
use hotdrop_orchestration.Kitchen.Commands.{
  release_outcome, accept_outcome, returned, release_portions-settled, accept_order-settled,
}
use hotdrop_orchestration.Kitchen.Consumer.{
  KitchenMessage, on_reserve, on_release, on_accept, kitchen_consumer,
}
use hotdrop_orchestration.Payment.{Payment, PaymentStore, is_authorized, is_refunded}
use hotdrop_orchestration.Payment.Outcomes.{
  authorize_outcome, capture_outcome, void_outcome, refund_outcome,
}
use hotdrop_orchestration.Payment.Commands.{
  authorize-settled, capture-settled, void_payment-settled, refund-settled,
}
use hotdrop_orchestration.Payment.Consumer.{
  PaymentMessage, on_authorize, on_capture, on_void, on_refund, payment_consumer,
}
use hotdrop_orchestration.Dispatch.{
  Delivery, CourierAssignment, DispatchStore, is_cancelled_assignment,
}
use hotdrop_orchestration.Dispatch.Assigning.{delivery_of, assign_outcome, assign_courier-settled}
use hotdrop_orchestration.Dispatch.Commands.{unassign_outcome, unassign_courier-settled}
use hotdrop_orchestration.Dispatch.Consumer.{
  DispatchMessage, on_assign, on_unassign, dispatch_consumer, timed,
}
use hotdrop_orchestration.Telemetry.Rows.{Writes, Carries, KeepsOutbox, handler-Writes}

module _ (env : Env) (s : KitchenStore) where
  reserve-KeepsOutbox :
      (ttl : ℕ) (cmd : ReservePortionsCommand) (rows : Option (List Drop)) (r : Option Reservation)
      → KeepsOutbox s (reserve_outcome env ttl cmd rows r s)
  reserve-KeepsOutbox ttl cmd none r = tt
  reserve-KeepsOutbox ttl cmd (some rows) (some r) = tt
  reserve-KeepsOutbox ttl cmd (some rows) none = refl

  returned-KeepsOutbox : (id : Key) (out : Result (List Drop)) → KeepsOutbox s (returned id out s)
  returned-KeepsOutbox id (err x) = tt
  returned-KeepsOutbox id (ok rows) = refl

  release-KeepsOutbox : (found : Option Reservation) → KeepsOutbox s (release_outcome found s)
  release-KeepsOutbox none = refl
  release-KeepsOutbox (some r) = elim (Bool-cases (is_released r.status)) [
    | inl over ↦ rw over refl
    | inr open_one ↦ rw open_one (returned-KeepsOutbox r.id (given r.items s.tables.drops))
  ]

  accept-KeepsOutbox :
      (cmd : AcceptOrderCommand) (found : Option Reservation)
      → KeepsOutbox s (accept_outcome cmd found s)
  accept-KeepsOutbox cmd none = tt
  accept-KeepsOutbox cmd (some r) = refl

  pub kitchen_consumer-Writes :
      (db : Prisma)
      → Documented db
      → (ttl : ℕ) (m : Key) (msg : KitchenMessage)
      → Writes (Carries env) s (kitchen_consumer db env ttl m msg s).1
  unfolding kitchen_consumer
  kitchen_consumer-Writes db law ttl m (on_reserve cmd) =
      handler-Writes env m s _ _ (reserve_portions-settled db law env ttl m cmd s)
        (reserve-KeepsOutbox ttl cmd _ _)
  kitchen_consumer-Writes db law ttl m (on_release cmd) =
      handler-Writes env m s _ _ (release_portions-settled db law env m cmd s)
        (release-KeepsOutbox _)
  kitchen_consumer-Writes db law ttl m (on_accept cmd) =
      handler-Writes env m s _ _ (accept_order-settled db law env m cmd s)
        (accept-KeepsOutbox cmd _)

module _ (env : Env) (s : PaymentStore) where
  authorize-KeepsOutbox :
      (declined : Bool) (cmd : AuthorizePaymentCommand) (found : Option Payment)
      → KeepsOutbox s (authorize_outcome env declined cmd found s)
  authorize-KeepsOutbox declined cmd (some p) = refl
  authorize-KeepsOutbox true cmd none = tt
  authorize-KeepsOutbox false cmd none = refl

  capture-KeepsOutbox :
      (cmd : PaymentCommand) (found : Option Payment) → KeepsOutbox s (capture_outcome cmd found s)
  capture-KeepsOutbox cmd none = tt
  capture-KeepsOutbox cmd (some p) = refl

  void-KeepsOutbox :
      (cmd : PaymentCommand) (found : Option Payment) → KeepsOutbox s (void_outcome cmd found s)
  void-KeepsOutbox cmd none = refl
  void-KeepsOutbox cmd (some p) = elim (Bool-cases (is_authorized p.status)) [
    | inl acts ↦ rw acts
    | inr rests ↦ rw rests
  ]

  refund-KeepsOutbox :
      (cmd : PaymentCommand) (found : Option Payment) → KeepsOutbox s (refund_outcome cmd found s)
  refund-KeepsOutbox cmd none = refl
  refund-KeepsOutbox cmd (some p) = elim (Bool-cases (is_refunded p.status)) [
    | inl rests ↦ rw rests
    | inr acts ↦ rw acts
  ]

  pub payment_consumer-Writes :
      (db : Prisma)
      → Documented db
      → (failure_rate : ℕ) (m : Key) (msg : PaymentMessage)
      → Writes (Carries env) s (payment_consumer db env failure_rate m msg s).1
  unfolding payment_consumer
  payment_consumer-Writes db law rate m (on_authorize draw cmd) =
      handler-Writes env m s _ _ (authorize-settled db law env rate draw m cmd s)
        (authorize-KeepsOutbox (ltb draw rate) cmd _)
  payment_consumer-Writes db law rate m (on_capture cmd) =
      handler-Writes env m s _ _ (capture-settled db law env m cmd s) (capture-KeepsOutbox cmd _)
  payment_consumer-Writes db law rate m (on_void cmd) =
      handler-Writes env m s _ _ (void_payment-settled db law env m cmd s) (void-KeepsOutbox cmd _)
  payment_consumer-Writes db law rate m (on_refund cmd) =
      handler-Writes env m s _ _ (refund-settled db law env m cmd s) (refund-KeepsOutbox cmd _)

module _ (env : Env) (s : DispatchStore) where
  assign-KeepsOutbox :
      (cmd : AssignCourierCommand) (courier : Option String) (d : Option Delivery)
      → KeepsOutbox s (assign_outcome env cmd courier d s)
  assign-KeepsOutbox cmd none d = tt
  assign-KeepsOutbox cmd (some courier) (some d) = tt
  assign-KeepsOutbox cmd (some courier) none = refl

  unassign-KeepsOutbox :
      (cmd : UnassignCourierCommand) (found : Option CourierAssignment)
      → KeepsOutbox s (unassign_outcome cmd found s)
  unassign-KeepsOutbox cmd none = refl
  unassign-KeepsOutbox cmd (some a) = elim (Bool-cases (is_cancelled_assignment a.status)) [
    | inl e ↦ rw e
    | inr e ↦ rw e
  ]

  pub dispatch_consumer-Writes :
      (db : Prisma)
      → Documented db
      → (m : Key) (msg : DispatchMessage)
      → Writes (Carries env) s (dispatch_consumer db env m msg s).1
  unfolding dispatch_consumer
  dispatch_consumer-Writes db law m (on_assign courier cmd) =
      let out = assign_outcome env cmd courier (delivery_of cmd.order_id s) s in
      let answered = Consume.settled env m (Consume.received m s) out s in
      subst (λ a. Writes (Carries env) s a.1)
        (sym (
          ap acknowledged (assign_courier-settled db law env m cmd courier s)
          ∙ timed cmd.order_id courier answered))
        (handler-Writes env m s answered out refl
          (assign-KeepsOutbox cmd courier (delivery_of cmd.order_id s)))
  dispatch_consumer-Writes db law m (on_unassign cmd) =
      handler-Writes env m s _ _ (unassign_courier-settled db law env m cmd s)
        (unassign-KeepsOutbox cmd _)
