-- ===== src/Saga/Completion/Participants.antt =====
-- The participants' sides of an order that goes well: what each command leaves, and its answer.
use hotdrop_orchestration.Base.{
  Key, ℕ, suc, String, ◌≡◌, refl, ◌∙◌, ap, false, none, some, List, [], ◌∷◌, ◌==◌, ==_refl, ltb,
  first-append, first-modify_first_self,
}
use hotdrop_orchestration.Contracts.{
  Payload, SagaCommand, PaymentStatus, DeliveryStatus, DeliveryEvent, ReservePortionsCommand,
  AuthorizePaymentCommand, PaymentCommand, AssignCourierCommand, command, saga_reply,
  delivery_event,
}
use hotdrop_orchestration.Prisma.{in_memory, in_memory-Documented}
use hotdrop_orchestration.Messaging.{Env, OutboxMessage, outbox_row, create_outbox_message}
use hotdrop_orchestration.Participant.Delivery.{acknowledged_state}
use hotdrop_orchestration.Participant.Consume.{received, settled}
use hotdrop_orchestration.Kitchen.{Drop, Reservation, KitchenStore, confirmed, reservation_key}
use hotdrop_orchestration.Kitchen.Service.{accept_order, reserved_reply, accepted_reply}
use hotdrop_orchestration.Kitchen.Inventory.{taken}
use hotdrop_orchestration.Kitchen.Reserving.{for_order, new_reservation}
use hotdrop_orchestration.Kitchen.Commands.{accept_outcome, accept_order-settled}
use hotdrop_orchestration.Kitchen.Consumer.{kitchen_consumer}
use hotdrop_orchestration.Payment.{Payment, PaymentStore, payment_key}
use hotdrop_orchestration.Payment.Service.{authorize, capture, authorized_reply, captured_reply}
use hotdrop_orchestration.Payment.Outcomes.{
  by_id, by_order, new_payment, authorize_outcome, capture_outcome,
}
use hotdrop_orchestration.Payment.Commands.{authorize-settled, capture-settled}
use hotdrop_orchestration.Payment.Consumer.{payment_consumer}
use hotdrop_orchestration.Dispatch.{Delivery, DispatchStore, is_delivered}
use hotdrop_orchestration.Dispatch.Service.{
  assign_courier, complete_delivery, start_timer, assigned_reply,
}
use hotdrop_orchestration.Dispatch.Assigning.{
  delivery_of, new_delivery, assign_outcome, assign_courier-settled,
}
use hotdrop_orchestration.Dispatch.Commands.{delivered, complete_outcome, complete_delivery-settled}
use hotdrop_orchestration.Dispatch.Consumer.{dispatch_consumer}
use hotdrop_orchestration.Order.Orchestrator.Journey.{first-append_none}
use hotdrop_orchestration.Saga.{
  kitchen_hears, kitchen_message, payment_hears, payment_message, dispatch_hears, dispatch_message,
}
use hotdrop_orchestration.Saga.Answers.{kitchen_state}
use hotdrop_orchestration.Saga.System.{IsRow, IsNew}
use hotdrop_orchestration.Saga.Completion.Orders.{AreNew, AreNew-tail, IsRow-last, row_of}

module _ (env : Env) (ttl : ℕ) (k : KitchenStore) where
  pub kitchen_reserves :
      (m : OutboxMessage) (cmd : ReservePortionsCommand) (rows : List Drop) (ks : List Key)
      → m.payload ≡ Payload.reserve_body cmd
      → AreNew (m.id ∷ ks) k.inbox
      → for_order cmd.order_id k.tables.reservations ≡ none
      → taken cmd.lines k.tables.drops ≡ some rows
      → IsNew reservation_key (env.cuid (suc (suc k.drawn))) k.tables.reservations
      → (env.cuid k.drawn == env.cuid (suc (suc k.drawn))) ≡ false
      → let t = kitchen_hears in_memory env ttl (some m) k in
        IsRow
          (row_of env
            (suc k.drawn)
            saga_reply
            (Payload.reply_body (reserved_reply cmd.order_id (env.cuid k.drawn))))
          t.outbox
        × (for_order cmd.order_id t.tables.reservations
            ≡ some (new_reservation env ttl k.drawn cmd))
        × AreNew ks t.inbox
        × (t.drawn ≡ suc (suc k.drawn))
        × IsNew reservation_key (env.cuid (suc (suc k.drawn))) t.tables.reservations
  kitchen_reserves m cmd rows ks body new fresh fit unused apart =
      rw (kitchen_state env ttl k cmd m (some rows) body new.0 fresh fit) (
        IsRow-last k.outbox _,
        first-append (λ r. r.order_id == cmd.order_id) k.tables.reservations _ fresh
            (==_refl cmd.order_id),
        AreNew-tail m.id env.now k.inbox ks new,
        refl,
        first-append_none (λ r. r.id == env.cuid (suc (suc k.drawn))) k.tables.reservations
            (new_reservation env ttl k.drawn cmd) unused apart,
      )

  pub kitchen_accepts :
      (from : Env) (n : ℕ) (id : Key) (r : Reservation)
      → AreNew (from.random_uuid n ∷ []) k.inbox
      → for_order id k.tables.reservations ≡ some r
      → let m =
          row_of from n
            (command SagaCommand.accept_order)
            (Payload.accept_body (record { order_id = id })) in
        let t = kitchen_hears in_memory env ttl (some m) k in
        IsRow (row_of env k.drawn saga_reply (Payload.reply_body (accepted_reply id))) t.outbox
        × (for_order id t.tables.reservations ≡ some (record r { status = confirmed }))
  unfolding kitchen_hears kitchen_message kitchen_consumer outbox_row create_outbox_message
  kitchen_accepts from n id r new found =
      let m = from.random_uuid n in
      let outcome : (settled env m (received m k)
            (accept_outcome (record { order_id = id }) (for_order id k.tables.reservations) k) k).1
          ≡ (settled env m none (accept_outcome (record { order_id = id }) (some r) k) k).1 =
        rw (new.0, found) in
      let e =
        acknowledged_state (accept_order in_memory env m (record { order_id = id }) k)
        ∙ ap (λ o. o.1)
            (accept_order-settled in_memory in_memory-Documented env m (record { order_id = id }) k)
        ∙ outcome in
      rw e (
        IsRow-last k.outbox _,
        first-modify_first_self (λ x. x.order_id == id) (λ x. record x { status = confirmed })
            k.tables.reservations r (λ x. refl) found,
      )

module _ (env : Env) (rate draw : ℕ) (p : PaymentStore) where
  pub payment_authorizes :
      (from : Env) (n : ℕ) (cmd : AuthorizePaymentCommand) (ks : List Key)
      → AreNew (from.random_uuid n ∷ ks) p.inbox
      → by_order cmd.order_id p ≡ none
      → IsNew payment_key (env.cuid p.drawn) p.tables.payments
      → ltb draw rate ≡ false
      → IsNew payment_key (env.cuid (suc (suc p.drawn))) p.tables.payments
      → (env.cuid p.drawn == env.cuid (suc (suc p.drawn))) ≡ false
      → let m =
          row_of from n (command SagaCommand.authorize_payment) (Payload.authorize_body cmd) in
        let t = payment_hears in_memory env rate draw (some m) p in
        IsRow
          (row_of env
            (suc p.drawn)
            saga_reply
            (Payload.reply_body (authorized_reply cmd.order_id (env.cuid p.drawn))))
          t.outbox
        × (by_id (env.cuid p.drawn) t ≡ some (new_payment env p.drawn cmd))
        × AreNew ks t.inbox
        × (t.drawn ≡ suc (suc p.drawn))
        × IsNew payment_key (env.cuid (suc (suc p.drawn))) t.tables.payments
  unfolding payment_hears payment_message payment_consumer outbox_row create_outbox_message
  payment_authorizes from n cmd ks new fresh unused accepted later apart =
      let m = from.random_uuid n in
      let outcome : (settled env m (received m p)
            (authorize_outcome env (ltb draw rate) cmd (by_order cmd.order_id p) p) p).1
          ≡ (settled env m none (authorize_outcome env false cmd none p) p).1 =
        rw (new.0, fresh, accepted) in
      let e =
        acknowledged_state (authorize in_memory env rate draw m cmd p)
        ∙ ap (λ o. o.1) (authorize-settled in_memory in_memory-Documented env rate draw m cmd p)
        ∙ outcome in
      rw e (
        IsRow-last p.outbox _,
        first-append (λ x. x.id == env.cuid p.drawn) p.tables.payments (new_payment env p.drawn cmd)
            unused (==_refl (env.cuid p.drawn)),
        AreNew-tail m env.now p.inbox ks new,
        refl,
        first-append_none (λ x. x.id == env.cuid (suc (suc p.drawn))) p.tables.payments
            (new_payment env p.drawn cmd) later apart,
      )

  pub payment_captures :
      (from : Env) (n : ℕ) (cmd : PaymentCommand) (x : Payment)
      → AreNew (from.random_uuid n ∷ []) p.inbox
      → by_id cmd.payment_id p ≡ some x
      → let m = row_of from n (command SagaCommand.capture_payment) (Payload.payment_body cmd) in
        let t = payment_hears in_memory env rate draw (some m) p in
        IsRow
          (row_of env p.drawn saga_reply (Payload.reply_body (captured_reply cmd.order_id)))
          t.outbox
        × (by_id cmd.payment_id t ≡ some (record x { status = PaymentStatus.captured }))
  unfolding payment_hears payment_message payment_consumer outbox_row create_outbox_message
  payment_captures from n cmd x new found =
      let m = from.random_uuid n in
      let outcome : (settled env m (received m p) (capture_outcome cmd (by_id cmd.payment_id p) p)
            p).1
          ≡ (settled env m none (capture_outcome cmd (some x) p) p).1 =
        rw (new.0, found) in
      let e =
        acknowledged_state (capture in_memory env m cmd p)
        ∙ ap (λ o. o.1) (capture-settled in_memory in_memory-Documented env m cmd p)
        ∙ outcome in
      rw e (
        IsRow-last p.outbox _,
        first-modify_first_self (λ y. y.id == cmd.payment_id)
            (λ y. record y { status = PaymentStatus.captured }) p.tables.payments x (λ y. refl)
            found,
      )

module _ (env : Env) (d : DispatchStore) where
  pub dispatch_assigns :
      (from : Env) (n : ℕ) (cmd : AssignCourierCommand) (courier : String)
      → AreNew (from.random_uuid n ∷ []) d.inbox
      → delivery_of cmd.order_id d ≡ none
      → let m = row_of from n (command SagaCommand.assign_courier) (Payload.assign_body cmd) in
        let t = dispatch_hears in_memory env (some courier) (some m) d in
        IsRow
          (row_of env
            (suc (suc d.drawn))
            saga_reply
            (Payload.reply_body (assigned_reply cmd.order_id (env.cuid d.drawn) courier)))
          t.outbox
        × (delivery_of cmd.order_id t
            ≡ some (new_delivery env (suc d.drawn) cmd.order_id (env.cuid d.drawn)))
        × (t.drawn ≡ suc (suc (suc d.drawn)))
  unfolding dispatch_hears dispatch_message dispatch_consumer outbox_row create_outbox_message
      start_timer
  dispatch_assigns from n cmd courier new fresh =
      let m = from.random_uuid n in
      let outcome : (start_timer cmd.order_id (some courier) (
            settled env m (received m d)
              (assign_outcome env cmd (some courier) (delivery_of cmd.order_id d) d) d)).1
          ≡ (settled env m none (assign_outcome env cmd (some courier) none d) d).1 =
        rw (new.0, fresh) in
      let e =
        acknowledged_state (assign_courier in_memory env m cmd (some courier) d)
        ∙ ap (λ o. o.1)
            (assign_courier-settled in_memory in_memory-Documented env m cmd (some courier) d)
        ∙ outcome in
      rw e (
        IsRow-last d.outbox _,
        first-append (λ x. x.order_id == cmd.order_id) d.tables.deliveries
            (new_delivery env (suc d.drawn) cmd.order_id (env.cuid d.drawn)) fresh
            (==_refl cmd.order_id),
        refl,
      )

  pub dispatch_delivers :
      (id : Key) (x : Delivery)
      → delivery_of id d ≡ some x
      → x.status ≡ DeliveryStatus.assigned
      → let t = complete_delivery in_memory env id d in
        IsRow
          (row_of env d.drawn
            (delivery_event DeliveryEvent.delivered)
            (Payload.delivered_body (record { order_id = id })))
          t.outbox
        × (delivery_of id t ≡ some (record x { status = DeliveryStatus.delivered }))
  unfolding is_delivered
  dispatch_delivers id x found assigned =
      let outcome : complete_outcome env id (delivery_of id d) d ≡ delivered env id d =
        rw found (rw assigned refl) in
      rw (complete_delivery-settled in_memory in_memory-Documented env id d ∙ outcome) (
        IsRow-last d.outbox _,
        first-modify_first_self (λ y. y.order_id == id)
            (λ y. record y { status = DeliveryStatus.delivered }) d.tables.deliveries x (λ y. refl)
            found,
      )
