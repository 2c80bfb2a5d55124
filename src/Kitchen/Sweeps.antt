-- ===== src/Kitchen/Sweeps.antt =====
-- One round of the sweep as a change of the kitchen's tables, on every branch.
use hotdrop_orchestration.Base.{
  ◌≡◌, refl, ◌∙◌, ap, Bool, true, false, Option, none, some, List, ◌==◌, if◌then◌else◌, first,
  Bool-cases, inl, inr,
}
use hotdrop_orchestration.Result.{Result, ok, err, >>-ok, >>-err, ◌>>◌, pure}
use hotdrop_orchestration.Prisma.{Prisma, Documented, in_memory, is_in_memory}
use hotdrop_orchestration.Prisma.Reference.{rollback, rolled}
use hotdrop_orchestration.Messaging.{Env}
use hotdrop_orchestration.Kitchen.{
  Drop, Reservation, KitchenStore, released, is_held, reservation_key,
}
use hotdrop_orchestration.Kitchen.Service.{put_back_all, set_reservation, with_drops}
use hotdrop_orchestration.Kitchen.Sweeper.{sweep_current, sweep_one}
use hotdrop_orchestration.Kitchen.Inventory.{given, after_items, put_back_all_lem}
use hotdrop_orchestration.Kitchen.Commands.{with_status, set_reservation_lem}

-- From what giving the items back came to.
abbrev pub swept : Reservation → Result (List Drop) → KitchenStore → Result Bool × KitchenStore
swept seen (err e) s = (err e, s)
swept seen (ok rows) s = (ok true, with_status reservation_key seen.id released rows s)

-- From the reservation as it is now: only one that is still HELD is released.
abbrev pub sweep_outcome :
    Reservation → Option Reservation → KitchenStore → Result Bool × KitchenStore
sweep_outcome seen none s = (ok false, s)
sweep_outcome seen (some c) s =
    if is_held c.status then swept seen (given seen.items s.tables.drops) s else (ok false, s)

held_round :
    (env : Env) (seen c : Reservation) (s : KitchenStore) (out : Result (List Drop))
    → first (λ x. x.id == seen.id) s.tables.reservations ≡ some c
    → given seen.items s.tables.drops ≡ out
    → rollback
        (put_back_all in_memory env seen.items
          >> (set_reservation in_memory env reservation_key seen.id released >> pure true))
        s
      ≡ swept seen out s
held_round env seen c s (err x) found e =
    ap (λ o. rolled o s)
      (>>-err (put_back_all in_memory env seen.items)
        (set_reservation in_memory env reservation_key seen.id released >> pure true) s
        (put_back_all_lem env seen.items s ∙ ap (λ o. after_items o s) e))
held_round env seen c s (ok rows) found e =
    ap (λ o. rolled o s)
      (>>-ok (put_back_all in_memory env seen.items)
          (set_reservation in_memory env reservation_key seen.id released >> pure true) s
          (put_back_all_lem env seen.items s ∙ ap (λ o. after_items o s) e)
        ∙ >>-ok (set_reservation in_memory env reservation_key seen.id released) (pure true)
            (with_drops rows s)
            (set_reservation_lem env reservation_key seen.id released (with_drops rows s) c found))

round_cases :
    (env : Env) (seen : Reservation) (s : KitchenStore) (found : Option Reservation)
    → first (λ x. x.id == seen.id) s.tables.reservations ≡ found
    → rollback (sweep_current in_memory env seen found) s ≡ sweep_outcome seen found s
unfolding sweep_current
round_cases env seen s none e = refl
round_cases env seen s (some c) e = elim (Bool-cases (is_held c.status)) [
  | inl kept ↦ rw kept (held_round env seen c s _ e refl)
  | inr over ↦ rw over
]

-- A round of the sweep gives the items that it has read back to their drops and marks the reservation
-- RELEASED, in one step, only where the reservation is still HELD; it leaves a reservation that is
-- gone, CONFIRMED or RELEASED alone, and where the database refuses a change it changes nothing.
pub sweep_one-settled :
    (db : Prisma)
    → Documented db
    → (env : Env) (seen : Reservation) (s : KitchenStore)
    → sweep_one db env seen s
      ≡ sweep_outcome seen (first (λ r. r.id == seen.id) s.tables.reservations) s
unfolding sweep_one
sweep_one-settled db law env seen s = rw (is_in_memory law) (round_cases env seen s _ refl)
