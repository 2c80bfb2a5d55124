-- ===== src/Kitchen/Consumer.antt =====
-- apps/kitchen-service/src/kitchen/kitchen.consumer.ts: the messages of the queue kitchen.commands.
use hotdrop_orchestration.Base.{Key, ℕ, ◌≡◌, sym, subst, Bool, true, some, ◌==◌, first}
use hotdrop_orchestration.Contracts.{
  ReservePortionsCommand, ReleasePortionsCommand, AcceptOrderCommand,
}
use hotdrop_orchestration.Prisma.{Prisma, Documented, in_memory, is_in_memory}
use hotdrop_orchestration.Messaging.{Env, InboxMessage}
use hotdrop_orchestration.Participant.Consume.{received}
use hotdrop_orchestration.Participant.Delivery.{acknowledged, consume_known, acknowledged-known}
use hotdrop_orchestration.Kitchen.{KitchenStore}
use hotdrop_orchestration.Kitchen.Service.{
  reserve_portions, release_portions, accept_order, reserve_work,
}
use hotdrop_orchestration.Kitchen.Commands.{
  release_outcome, accept_outcome, release_portions-settled, accept_order-settled, release_inbox,
  accept_inbox,
}
use hotdrop_orchestration.Kitchen.Reserving.{
  for_order, reserve_outcome, reserve_portions-settled, reserve_inbox,
}
use hotdrop_orchestration.Kitchen.Inventory.{taken}

pub data KitchenMessage : Type 0 where
  on_reserve : ReservePortionsCommand → KitchenMessage
  on_release : ReleasePortionsCommand → KitchenMessage
  on_accept : AcceptOrderCommand → KitchenMessage

-- The handler of a message, and whether it is acknowledged.
unfoldable pub kitchen_consumer :
    Prisma → Env → ℕ → Key → KitchenMessage → KitchenStore → Bool × KitchenStore
kitchen_consumer db env ttl m (on_reserve cmd) s =
    acknowledged (reserve_portions db env ttl m cmd s)
kitchen_consumer db env ttl m (on_release cmd) s = acknowledged (release_portions db env m cmd s)
kitchen_consumer db env ttl m (on_accept cmd) s = acknowledged (accept_order db env m cmd s)

known_again :
    (env : Env) (ttl : ℕ) (m : Key) (msg : KitchenMessage) (s : KitchenStore) (x : InboxMessage)
    → received m s ≡ some x
    → kitchen_consumer in_memory env ttl m msg s ≡ (true, s)
unfolding kitchen_consumer reserve_portions release_portions accept_order acknowledged
known_again env ttl m (on_reserve cmd) s x e =
    rw (consume_known env m (reserve_work in_memory env ttl cmd) s x e)
known_again env ttl m (on_release cmd) s x e = rw (consume_known env m _ s x e)
known_again env ttl m (on_accept cmd) s x e = rw (consume_known env m _ s x e)

handled-known :
    (db : Prisma)
    → Documented db
    → (env : Env) (ttl : ℕ) (m : Key) (msg : KitchenMessage) (s : KitchenStore)
    → (kitchen_consumer db env ttl m msg s).0 ≡ true
    → (x : InboxMessage) × (received m (kitchen_consumer db env ttl m msg s).1 ≡ some x)
unfolding kitchen_consumer
handled-known db law env ttl m (on_reserve cmd) s acked =
    acknowledged-known env m s
      (reserve_outcome env ttl cmd (taken cmd.lines s.tables.drops)
        (for_order cmd.order_id s.tables.reservations) s)
      _ (reserve_portions-settled db law env ttl m cmd s) (reserve_inbox env ttl cmd s _ _) acked
handled-known db law env ttl m (on_release cmd) s acked =
    acknowledged-known env m s
      (release_outcome (first (λ r. r.id == cmd.reservation_id) s.tables.reservations) s) _
      (release_portions-settled db law env m cmd s)
      (release_inbox (first (λ r. r.id == cmd.reservation_id) s.tables.reservations) s) acked
handled-known db law env ttl m (on_accept cmd) s acked =
    acknowledged-known env m s (accept_outcome cmd (for_order cmd.order_id s.tables.reservations) s)
      _ (accept_order-settled db law env m cmd s)
      (accept_inbox cmd (for_order cmd.order_id s.tables.reservations) s) acked

-- The broker delivers at least once: a message of the kitchen's queue that was acknowledged and is
-- delivered again at once, with any content, is acknowledged again and changes nothing.
pub kitchen_redelivery :
    (db : Prisma)
    → Documented db
    → (env later : Env) (ttl : ℕ) (m : Key) (msg again : KitchenMessage) (s : KitchenStore)
    → (kitchen_consumer db env ttl m msg s).0 ≡ true
    → let t = (kitchen_consumer db env ttl m msg s).1 in
      kitchen_consumer db later ttl m again t ≡ (true, t)
kitchen_redelivery db law env later ttl m msg again s acked =
    let (x, known) = handled-known db law env ttl m msg s acked in
    subst
      (λ d.
        kitchen_consumer d later ttl m again (kitchen_consumer db env ttl m msg s).1
        ≡ (true, (kitchen_consumer db env ttl m msg s).1))
      (sym (is_in_memory law)) (known_again later ttl m again _ x known)
