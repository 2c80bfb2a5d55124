-- ===== src/Kitchen/Service.antt =====
-- apps/kitchen-service/src/kitchen/kitchen.service.ts: the portion inventory.
use hotdrop_orchestration.Base.{
  Key, ℕ, suc, ◌+◌, ◌*◌, Bool, ◌&&◌, Option, none, some, List, [], ◌∷◌, map, leb, ◌==◌,
  if◌then◌else◌,
}
use hotdrop_orchestration.Contracts.{
  SagaReply, SagaStep, ReplyData, ReservePortionsCommand, ReleasePortionsCommand,
  AcceptOrderCommand, OrderLineInput, ok_status, failed_status,
}
use hotdrop_orchestration.Result.{Result, ok, err, Tx, step_failure, pure, done, ◌>>=◌, ◌>>◌}
use hotdrop_orchestration.Prisma.{Prisma}
use hotdrop_orchestration.Messaging.{Env}
use hotdrop_orchestration.Participant.{Work, consume}
use hotdrop_orchestration.Kitchen.{
  Drop, Reservation, ReservationItem, ReservationStatus, KitchenStore, KitchenTables, drop_key,
  reservation_key, reservation_order_key, held, confirmed, released, is_released, give_back,
  take_out,
}

abbrev pub no_data : ReplyData
no_data = record {
  reservation_id = none;
  payment_id = none;
  assignment_id = none;
  courier_id = none;
}

abbrev pub sold_out_reply : Key → SagaReply
sold_out_reply order_id = record {
  order_id = order_id;
  step = SagaStep.reserve_portions;
  status = failed_status;
  reason = some "SOLD_OUT";
  result = none;
}

abbrev pub reserved_reply : Key → Key → SagaReply
reserved_reply order_id reservation_id = record {
  order_id = order_id;
  step = SagaStep.reserve_portions;
  status = ok_status;
  reason = none;
  result = some (record no_data { reservation_id = some reservation_id });
}

abbrev pub accepted_reply : Key → SagaReply
accepted_reply order_id = record {
  order_id = order_id;
  step = SagaStep.accept_order;
  status = ok_status;
  reason = none;
  result = none;
}

-- cmd.lines.map((l) => ({ dropId: l.dropId, qty: l.qty }))
unfoldable pub items_of : List OrderLineInput → List ReservationItem
items_of = map λ l. record { drop_id = l.drop_id; qty = l.qty }

-- where: { id: line.dropId, available: { gte: line.qty } }
unfoldable pub can_take : OrderLineInput → Drop → Bool
can_take line d = d.id == line.drop_id && leb line.qty d.available

abbrev pub with_drops : List Drop → KitchenStore → KitchenStore
with_drops rows s = record s { tables = record (s.tables) { drops = rows } }

abbrev pub with_reservations : List Reservation → KitchenStore → KitchenStore
with_reservations rows s = record s { tables = record (s.tables) { reservations = rows } }

module _ (db : Prisma) (env : Env) where
  -- One round of the loop: the conditional decrement, and SOLD_OUT where it changes no row.
  unfoldable pub take_line : Key → OrderLineInput → Tx KitchenStore (Unit {0})
  unfolding can_take take_out
  take_line order_id line s =
      let (count, rows) = db.update_many (can_take line) (take_out line.qty) s.tables.drops in
      if count == 0
      then err (step_failure (sold_out_reply order_id))
      else ok (tt, with_drops rows s)

  unfoldable pub take_lines : Key → List OrderLineInput → Tx KitchenStore (Unit {0})
  take_lines order_id [] = done
  take_lines order_id (line ∷ lines) = take_line order_id line >> take_lines order_id lines

  -- tx.reservation.create: orderId is unique; the id is a fresh cuid, the status HELD by default.
  unfoldable pub create_reservation : ℕ → ReservePortionsCommand → Tx KitchenStore Key
  unfolding items_of
  create_reservation ttl_seconds cmd s =
      let row : Reservation = record {
        id = env.cuid s.drawn;
        order_id = cmd.order_id;
        status = held;
        expires_at = env.now + ttl_seconds * 1000;
        items = items_of cmd.lines;
      } in
      elim (db.create (reservation_order_key ∷ []) row s.tables.reservations) [
        | ok rows ↦ ok (row.id, record (with_reservations rows s) { drawn = suc s.drawn })
        | err e ↦ err e
      ]

  unfoldable pub reserve_work : ℕ → ReservePortionsCommand → Work KitchenTables
  reserve_work ttl_seconds cmd = do
    take_lines cmd.order_id cmd.lines
    id ← create_reservation ttl_seconds cmd
    pure (some (reserved_reply cmd.order_id id))

  unfoldable pub reserve_portions :
      ℕ → Key → ReservePortionsCommand → KitchenStore → Result (Unit {0}) × KitchenStore
  reserve_portions ttl_seconds message_id cmd =
      consume db env message_id (reserve_work ttl_seconds cmd)

  -- tx.drop.update({ where: { id: item.dropId }, data: { available: +qty, reserved: -qty } })
  unfoldable pub put_back : ReservationItem → Tx KitchenStore (Unit {0})
  unfolding give_back
  put_back item s = elim (db.update drop_key item.drop_id (give_back item.qty) s.tables.drops) [
    | ok rows ↦ ok (tt, with_drops rows s)
    | err e ↦ err e
  ]

  unfoldable pub put_back_all : List ReservationItem → Tx KitchenStore (Unit {0})
  unfolding put_back
  put_back_all [] = done
  put_back_all (item ∷ items) = put_back item >> put_back_all items

  unfoldable pub set_reservation :
      (Reservation → Key) → Key → ReservationStatus → Tx KitchenStore (Unit {0})
  set_reservation column k status s =
      elim (db.update column k (λ r. some (record r { status = status })) s.tables.reservations) [
        | ok rows ↦ ok (tt, with_reservations rows s)
        | err e ↦ err e
      ]

  unfoldable pub release_row : Reservation → Tx KitchenStore (Unit {0})
  release_row r = put_back_all r.items >> set_reservation reservation_key r.id released

  unfoldable pub release_found : Option Reservation → Work KitchenTables
  release_found none = pure none
  release_found (some r) = if is_released r.status then pure none else (release_row r >> pure none)

  unfoldable pub release_portions :
      Key → ReleasePortionsCommand → KitchenStore → Result (Unit {0}) × KitchenStore
  release_portions message_id cmd =
      consume db env message_id λ s.
        release_found (db.find_unique reservation_key cmd.reservation_id s.tables.reservations) s

  unfoldable pub accept_work : AcceptOrderCommand → Work KitchenTables
  accept_work cmd = do
    set_reservation reservation_order_key cmd.order_id confirmed
    pure (some (accepted_reply cmd.order_id))

  unfoldable pub accept_order :
      Key → AcceptOrderCommand → KitchenStore → Result (Unit {0}) × KitchenStore
  accept_order message_id cmd = consume db env message_id (accept_work cmd)
