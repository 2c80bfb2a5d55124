-- ===== src/Kitchen/Commands.antt =====
-- ReleasePortions and AcceptOrder as changes of the kitchen's two tables: the outcome of each handler
-- on every branch, in terms of the inventory.
use hotdrop_orchestration.Base.{
  Key, ◌≡◌, refl, sym, ◌∙◌, ap, subst, Option, none, some, List, arith, ◌==◌, if◌then◌else◌, first,
  modify_first, Bool-cases, inl, inr, first_holds, modify_first-const, ==_iff,
}
use hotdrop_orchestration.Contracts.{ReleasePortionsCommand, AcceptOrderCommand}
use hotdrop_orchestration.Result.{Result, ok, err, >>-ok, >>-err, ◌>>◌, pure, record_not_found}
use hotdrop_orchestration.Prisma.{Prisma, Documented, in_memory, is_in_memory}
use hotdrop_orchestration.Messaging.{Env}
use hotdrop_orchestration.Participant.Consume.{received, settled, consume_lem, KeepsInbox}
use hotdrop_orchestration.Kitchen.{
  Drop, Reservation, ReservationStatus, KitchenStore, confirmed, released, is_released,
  reservation_key, reservation_order_key,
}
use hotdrop_orchestration.Kitchen.Service.{
  put_back_all, set_reservation, release_row, release_found, release_portions, accept_work,
  accept_order, with_drops, accepted_reply,
}
use hotdrop_orchestration.Kitchen.Inventory.{given, after_items, put_back_all_lem}
use hotdrop_orchestration.Kitchen.Reserving.{Outcome, for_order}

-- A change of one reservation's status, after the drops were given their portions back.
abbrev pub with_status :
    (Reservation → Key) → Key → ReservationStatus → List Drop → KitchenStore → KitchenStore
with_status column k status rows s = record s {
  tables = record {
    drops = rows;
    reservations =
        modify_first (λ r. column r == k) (λ r. record r { status = status }) s.tables.reservations;
  };
}

pub set_reservation_lem :
    (env : Env) (column : Reservation → Key) (k : Key) (status : ReservationStatus)
    (s : KitchenStore) (r : Reservation)
    → first (λ x. column x == k) s.tables.reservations ≡ some r
    → set_reservation in_memory env column k status s
      ≡ ok (tt, with_status column k status s.tables.drops s)
unfolding set_reservation
set_reservation_lem env column k status s r e = ground (
  arith,
  modify_first-const (λ x. column x == k) (λ x. record x { status = status }) s.tables.reservations
      r e,
)

-- The work of a release, from what giving the items back came to.
abbrev pub returned : Key → Result (List Drop) → KitchenStore → Outcome
returned id (err e) s = err e
returned id (ok rows) s = ok (none, with_status reservation_key id released rows s)

-- ReleasePortions, from the reservation that was found.
abbrev pub release_outcome : Option Reservation → KitchenStore → Outcome
release_outcome none s = ok (none, s)
release_outcome (some r) s =
    if is_released r.status then ok (none, s) else returned r.id (given r.items s.tables.drops) s

release_row_lem :
    (env : Env) (s : KitchenStore) (r : Reservation) (out : Result (List Drop))
    → first (λ x. x.id == r.id) s.tables.reservations ≡ some r
    → given r.items s.tables.drops ≡ out
    → (release_row in_memory env r >> pure none) s ≡ returned r.id out s
unfolding release_row
release_row_lem env s r (err x) found e =
    >>-err
      (put_back_all in_memory env r.items
        >> set_reservation in_memory env reservation_key r.id released)
      (pure none) s
      (>>-err (put_back_all in_memory env r.items)
        (set_reservation in_memory env reservation_key r.id released) s
        (put_back_all_lem env r.items s ∙ ap (λ o. after_items o s) e))
release_row_lem env s r (ok rows) found e =
    >>-ok
      (put_back_all in_memory env r.items
        >> set_reservation in_memory env reservation_key r.id released)
      (pure none) s
      (>>-ok (put_back_all in_memory env r.items)
          (set_reservation in_memory env reservation_key r.id released) s
          (put_back_all_lem env r.items s ∙ ap (λ o. after_items o s) e)
        ∙ set_reservation_lem env reservation_key r.id released (with_drops rows s) r found)

pub reservation_id :
    (id : Key) (rs : List Reservation) (r : Reservation)
    → first (λ x. x.id == id) rs ≡ some r
    → r.id ≡ id
reservation_id id rs r e = (==_iff r.id id).0 (first_holds (λ x. x.id == id) rs r e)

release_found_lem :
    (env : Env) (id : Key) (s : KitchenStore) (found : Option Reservation)
    → first (λ x. x.id == id) s.tables.reservations ≡ found
    → release_found in_memory env found s ≡ release_outcome found s
unfolding release_found
release_found_lem env id s none e = refl
release_found_lem env id s (some r) e = elim (Bool-cases (is_released r.status)) [
  | inl over ↦ rw over
  | inr open_one ↦ rw open_one (
      release_row_lem env s r _
        (subst (λ k. first (λ x. x.id == k) s.tables.reservations ≡ some r)
          (sym (reservation_id id s.tables.reservations r e)) e)
        refl)
]

pub release_inbox :
    (found : Option Reservation) (s : KitchenStore) → KeepsInbox s (release_outcome found s)
release_inbox none s = refl
release_inbox (some r) s = elim (Bool-cases (is_released r.status)) [
  | inl over ↦ rw over refl
  | inr open_one ↦ rw open_one (returned_inbox (given r.items s.tables.drops))
]
  where
    returned_inbox : (out : Result (List Drop)) → KeepsInbox s (returned r.id out s)
    returned_inbox (err x) = tt
    returned_inbox (ok rows) = refl

-- ReleasePortions gives the items of a reservation back and marks it RELEASED, in one step and with
-- no reply; a reservation that is missing or RELEASED is left alone.
pub release_portions-settled :
    (db : Prisma)
    → Documented db
    → (env : Env) (message_id : Key) (cmd : ReleasePortionsCommand) (s : KitchenStore)
    → release_portions db env message_id cmd s
      ≡ settled env message_id
          (received message_id s)
          (release_outcome (first (λ r. r.id == cmd.reservation_id) s.tables.reservations) s)
          s
unfolding release_portions
release_portions-settled db law env message_id cmd s = rw (is_in_memory law) (
    consume_lem env message_id
      (λ t.
        release_found in_memory env (first (λ r. r.id == cmd.reservation_id) t.tables.reservations)
          t)
      s _ _ refl (release_found_lem env cmd.reservation_id s _ refl) (release_inbox _ s))

-- AcceptOrder, from the reservation of the order: whatever its status, it becomes CONFIRMED.
abbrev pub accept_outcome : AcceptOrderCommand → Option Reservation → KitchenStore → Outcome
accept_outcome cmd none s = err record_not_found
accept_outcome cmd (some r) s = ok (
  some (accepted_reply cmd.order_id),
  with_status reservation_order_key cmd.order_id confirmed s.tables.drops s,
)

accept_work_lem :
    (env : Env) (cmd : AcceptOrderCommand) (s : KitchenStore) (found : Option Reservation)
    → for_order cmd.order_id s.tables.reservations ≡ found
    → accept_work in_memory env cmd s ≡ accept_outcome cmd found s
unfolding accept_work set_reservation
accept_work_lem env cmd s none e =
    >>-err (set_reservation in_memory env reservation_order_key cmd.order_id confirmed)
      (pure (some (accepted_reply cmd.order_id))) s (rw (e, set_reservation))
accept_work_lem env cmd s (some r) e =
    >>-ok (set_reservation in_memory env reservation_order_key cmd.order_id confirmed)
      (pure (some (accepted_reply cmd.order_id))) s
      (set_reservation_lem env reservation_order_key cmd.order_id confirmed s r e)

pub accept_inbox :
    (cmd : AcceptOrderCommand) (found : Option Reservation) (s : KitchenStore)
    → KeepsInbox s (accept_outcome cmd found s)
accept_inbox cmd none s = tt
accept_inbox cmd (some r) s = refl

-- AcceptOrder marks the order's reservation CONFIRMED, whatever its status was, and replies OK; where
-- the order has none the error goes on to the broker, and a known message changes nothing.
pub accept_order-settled :
    (db : Prisma)
    → Documented db
    → (env : Env) (message_id : Key) (cmd : AcceptOrderCommand) (s : KitchenStore)
    → accept_order db env message_id cmd s
      ≡ settled env message_id
          (received message_id s)
          (accept_outcome cmd (for_order cmd.order_id s.tables.reservations) s)
          s
unfolding accept_order
accept_order-settled db law env message_id cmd s = rw (is_in_memory law) (
    consume_lem env message_id (accept_work in_memory env cmd) s _ _ refl
      (accept_work_lem env cmd s _ refl) (accept_inbox cmd _ s))
