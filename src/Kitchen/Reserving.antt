-- ===== src/Kitchen/Reserving.antt =====
-- ReservePortions, on every branch.
use hotdrop_orchestration.Base.{
  Key, ℕ, suc, ◌+◌, ◌*◌, ◌≡◌, refl, ◌∙◌, ap, Option, none, some, List, [], ◌∷◌, ◌++◌, arith, ◌==◌,
  first,
}
use hotdrop_orchestration.Contracts.{ReservePortionsCommand, SagaReply}
use hotdrop_orchestration.Result.{
  Result, ok, err, step_failure, >>-ok, >>-err, >>=-ok, >>=-err, pure, unique_violation,
}
use hotdrop_orchestration.Prisma.{Prisma, Documented, in_memory, is_in_memory}
use hotdrop_orchestration.Messaging.{Env}
use hotdrop_orchestration.Participant.Consume.{received, settled, consume_lem, KeepsInbox}
use hotdrop_orchestration.Kitchen.{Drop, Reservation, KitchenStore, held}
use hotdrop_orchestration.Kitchen.Service.{
  items_of, take_lines, create_reservation, reserve_work, reserve_portions, with_drops,
  with_reservations, sold_out_reply, reserved_reply,
}
use hotdrop_orchestration.Kitchen.Inventory.{taken, after_lines, take_lines_lem}

abbrev pub Outcome : Type 0
Outcome = Result (Option SagaReply × KitchenStore)

-- The reservation row that a command creates.
abbrev pub new_reservation : Env → ℕ → ℕ → ReservePortionsCommand → Reservation
new_reservation env ttl drawn cmd = record {
  id = env.cuid drawn;
  order_id = cmd.order_id;
  status = held;
  expires_at = env.now + ttl * 1000;
  items = items_of cmd.lines;
}

abbrev pub for_order : Key → List Reservation → Option Reservation
for_order order_id rs = first (λ r. r.order_id == order_id) rs

-- ReservePortions, from the drops after its lines and the reservation that the order may have.
abbrev pub reserve_outcome :
    Env
    → ℕ
    → ReservePortionsCommand
    → Option (List Drop)
    → Option Reservation
    → KitchenStore
    → Outcome
reserve_outcome env ttl cmd none r s = err (step_failure (sold_out_reply cmd.order_id))
reserve_outcome env ttl cmd (some rows) (some r) s = err unique_violation
reserve_outcome env ttl cmd (some rows) none s = ok (
  some (reserved_reply cmd.order_id (env.cuid s.drawn)),
  record s {
    tables = record {
      drops = rows;
      reservations = s.tables.reservations ++ new_reservation env ttl s.drawn cmd ∷ [];
    };
    drawn = suc s.drawn;
  },
)

create_reservation_lem :
    (env : Env) (ttl : ℕ) (cmd : ReservePortionsCommand) (s : KitchenStore) (r : Option Reservation)
    → for_order cmd.order_id s.tables.reservations ≡ r
    → create_reservation in_memory env ttl cmd s ≡ (elim r [
      | some _ ↦ err unique_violation
      | none ↦ ok (
        env.cuid s.drawn,
        record (with_reservations
            (s.tables.reservations ++ new_reservation env ttl s.drawn cmd ∷ [])
            s) { drawn = suc s.drawn },
      )
    ])
unfolding create_reservation
create_reservation_lem env ttl cmd s none e = ground arith
create_reservation_lem env ttl cmd s (some r) e = ground arith

reserve_work_lem :
    (env : Env) (ttl : ℕ) (cmd : ReservePortionsCommand) (s : KitchenStore)
    (rows : Option (List Drop)) (r : Option Reservation)
    → taken cmd.lines s.tables.drops ≡ rows
    → for_order cmd.order_id s.tables.reservations ≡ r
    → reserve_work in_memory env ttl cmd s ≡ reserve_outcome env ttl cmd rows r s
unfolding reserve_work
reserve_work_lem env ttl cmd s none r e f =
    >>-err (take_lines in_memory env cmd.order_id cmd.lines) _ s
      (take_lines_lem env cmd.order_id cmd.lines s ∙ ap (λ o. after_lines cmd.order_id o s) e)
reserve_work_lem env ttl cmd s (some rows) (some r) e f =
    >>-ok (take_lines in_memory env cmd.order_id cmd.lines) _ s
      (take_lines_lem env cmd.order_id cmd.lines s ∙ ap (λ o. after_lines cmd.order_id o s) e)
    ∙ >>=-err (create_reservation in_memory env ttl cmd)
        (λ id. pure (some (reserved_reply cmd.order_id id))) (with_drops rows s)
        (create_reservation_lem env ttl cmd (with_drops rows s) (some r) f)
reserve_work_lem env ttl cmd s (some rows) none e f =
    >>-ok (take_lines in_memory env cmd.order_id cmd.lines) _ s
      (take_lines_lem env cmd.order_id cmd.lines s ∙ ap (λ o. after_lines cmd.order_id o s) e)
    ∙ >>=-ok (create_reservation in_memory env ttl cmd)
        (λ id. pure (some (reserved_reply cmd.order_id id))) (with_drops rows s)
        (create_reservation_lem env ttl cmd (with_drops rows s) none f)

pub reserve_inbox :
    (env : Env) (ttl : ℕ) (cmd : ReservePortionsCommand) (s : KitchenStore)
    (rows : Option (List Drop)) (r : Option Reservation)
    → KeepsInbox s (reserve_outcome env ttl cmd rows r s)
reserve_inbox env ttl cmd s none r = tt
reserve_inbox env ttl cmd s (some rows) (some r) = tt
reserve_inbox env ttl cmd s (some rows) none = refl

-- ReservePortions is all or nothing: either every line takes its portions and the reservation is
-- created and announced, or nothing is taken and SOLD_OUT is sent; a second reservation for one
-- order is refused by the database, and a known message changes nothing.
pub reserve_portions-settled :
    (db : Prisma)
    → Documented db
    → (env : Env) (ttl : ℕ) (message_id : Key) (cmd : ReservePortionsCommand) (s : KitchenStore)
    → reserve_portions db env ttl message_id cmd s
      ≡ settled env message_id
          (received message_id s)
          (reserve_outcome env ttl cmd
            (taken cmd.lines s.tables.drops)
            (for_order cmd.order_id s.tables.reservations)
            s)
          s
unfolding reserve_portions
reserve_portions-settled db law env ttl message_id cmd s = rw (is_in_memory law) (
    consume_lem env message_id (reserve_work in_memory env ttl cmd) s _ _ refl
      (reserve_work_lem env ttl cmd s _ _ refl refl) (reserve_inbox env ttl cmd s _ _))
