-- ===== src/Kitchen/Races.antt =====
-- What the kitchen does when an AcceptOrder comes after its reservation was released, by a sweep or by
-- a compensation.
use hotdrop_orchestration.Base.{
  Key, ◌+◌, ◌≡◌, refl, sym, ap, subst, Bool, true, none, some, List, [], ◌∷◌, arith, ◌==◌, first,
  modify_first, found_here, Bool-cases, inl, inr, ◌++◌, first-modify_first_self,
}
use hotdrop_orchestration.Contracts.{
  AcceptOrderCommand, SagaReply, SagaStep, Payload, ok_status, saga_reply,
}
use hotdrop_orchestration.Result.{ok}
use hotdrop_orchestration.Prisma.{Prisma, Documented}
use hotdrop_orchestration.Messaging.{Env, outbox_row, create_outbox_message}
use hotdrop_orchestration.Participant.Consume.{received}
use hotdrop_orchestration.Kitchen.{
  Reservation, ReservationStatus, KitchenStore, confirmed, is_released,
}
use hotdrop_orchestration.Kitchen.Service.{accept_order}
use hotdrop_orchestration.Kitchen.Commands.{accept_order-settled}
use hotdrop_orchestration.Kitchen.Reserving.{for_order}
use hotdrop_orchestration.Kitchen.Accounts.{held_for, holds, portions_of}

holds-released : (k : Key) (r : Reservation) → is_released r.status ≡ true → holds k r ≡ 0
holds-released k r h = rw h

-- A released reservation that is confirmed holds its items again.
held_for-revive :
    (k : Key) (p : Reservation → Bool) (rs : List Reservation) (r : Reservation)
    → first p rs ≡ some r
    → is_released r.status ≡ true
    → held_for k (modify_first p (λ x. record x { status = confirmed }) rs)
      ≡ held_for k rs + portions_of k r.items
unfolding is_released
held_for-revive k p [] r e h = cc
held_for-revive k p (x ∷ rs) r e h = elim (Bool-cases (p x)) [
  | inl here ↦
      let same = found_here p x r rs here e in
      rw here (
        omega (
          arith,
          holds-released k x (subst (λ y. is_released y.status ≡ true) (sym same) h),
          ap (λ y. portions_of k y.items) same,
        ))
  | inr later ↦ rw later (omega (arith, held_for-revive k p rs r (ground arith) h))
]

-- A new AcceptOrder whose order has a RELEASED reservation is answered OK: the reservation becomes
-- CONFIRMED, the OK reply is the one message that is added to the outbox, and the reservations hold
-- its items again, while no drop changes.
pub accept_after_release :
    (db : Prisma)
    → Documented db
    → (env : Env) (message_id : Key) (cmd : AcceptOrderCommand) (s : KitchenStore) (r : Reservation)
    → received message_id s ≡ none
    → for_order cmd.order_id s.tables.reservations ≡ some r
    → is_released r.status ≡ true
    → let after = accept_order db env message_id cmd s in
      let reply : SagaReply = record {
        order_id = cmd.order_id;
        step = SagaStep.accept_order;
        status = ok_status;
        reason = none;
        result = none;
      } in
      let row =
        outbox_row env (create_outbox_message env s.drawn saga_reply (Payload.reply_body reply)) in
      (after.0 ≡ ok tt)
      × (for_order cmd.order_id after.1.tables.reservations
          ≡ some (record r { status = ReservationStatus.confirmed }))
      × (after.1.outbox ≡ s.outbox ++ row ∷ [])
      × (after.1.tables.drops ≡ s.tables.drops)
      × ((k : Key)
          → held_for k after.1.tables.reservations
            ≡ held_for k s.tables.reservations + portions_of k r.items)
accept_after_release db law env message_id cmd s r new found over =
    let of_order : Reservation → Bool = λ x. x.order_id == cmd.order_id in
    rw (accept_order-settled db law env message_id cmd s, new, found)
      (
        refl,
        first-modify_first_self of_order (λ x. record x { status = confirmed })
            s.tables.reservations r (λ x. refl) found,
        refl,
        refl,
        λ k. held_for-revive k of_order s.tables.reservations r found over,
      )
