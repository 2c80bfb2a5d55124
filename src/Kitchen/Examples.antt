-- ===== src/Kitchen/Examples.antt =====
-- Runs of the kitchen's commands at concrete inputs.
use hotdrop_orchestration.Base.{◌≡◌, ◌≤◌, refl, ◌+◌, none, some, List, [], ◌∷◌, map, Perm, Key}
use hotdrop_orchestration.Contracts.{
  DropStatus, ReservePortionsCommand, ReleasePortionsCommand, AcceptOrderCommand, SagaReply,
  SagaStep, Payload, ok_status, saga_reply,
}
use hotdrop_orchestration.Result.{ok}
use hotdrop_orchestration.Prisma.{in_memory, in_memory-Documented}
use hotdrop_orchestration.Kitchen.Totals.{booking, reserve_portions-booking}
use hotdrop_orchestration.Kitchen.Seed.{seed}
use hotdrop_orchestration.Kitchen.Seed.Reset.{seeded, seed-reset}
use hotdrop_orchestration.Examples.{clock, database}
use hotdrop_orchestration.Messaging.{outbox_row, create_outbox_message}
use hotdrop_orchestration.Participant.Consume.{settled}
use hotdrop_orchestration.Kitchen.{
  Drop, Reservation, KitchenStore, held, confirmed, released, is_released,
}
use hotdrop_orchestration.Participant.{consume}
use hotdrop_orchestration.Kitchen.Service.{
  reserve_work, take_lines, take_line, create_reservation, reserve_portions, release_portions,
  accept_order,
}
use hotdrop_orchestration.Kitchen.Sweeper.{sweep_one, release_expired_reservations}
use hotdrop_orchestration.Kitchen.Swept.{IsCount, held_count, release_expired_reservations-IsCount}
use hotdrop_orchestration.Kitchen.Inventory.{taken}
use hotdrop_orchestration.Kitchen.Commands.{
  release_outcome, accept_outcome, release_portions-settled, accept_order-settled,
}
use hotdrop_orchestration.Kitchen.Reserving.{for_order, reserve_outcome, reserve_portions-settled}
use hotdrop_orchestration.Kitchen.Sweeps.{sweep_outcome, sweep_one-settled}
use hotdrop_orchestration.Kitchen.Accounts.{IsConserved, held_for, portions_of}
use hotdrop_orchestration.Kitchen.Portions.{
  Reach, here, next, reserve, Reach-IsConserved, never_oversold,
}
use hotdrop_orchestration.Kitchen.Races.{accept_after_release}
use hotdrop_orchestration.Prisma.Ordering.{IsAscending}
use hotdrop_orchestration.Prisma.Ordering.Insertion.{insertion, insertion-Orders}
use hotdrop_orchestration.Kitchen.Query.Listing.{list_drops-live}
use hotdrop_orchestration.Kitchen.Query.{list_drops, to_proto}

abbrev lunch : Drop
lunch = record {
  id = 1;
  kitchen_id = 9;
  status = DropStatus.live;
  window_from = 0;
  window_to = 9000;
  total_portions = 10;
  available = 8;
  reserved = 2;
  dishes = [];
}

abbrev two_held : Reservation
two_held = record {
  id = 50;
  order_id = 60;
  status = held;
  expires_at = 4000;
  items = record { drop_id = 1; qty = 2 } ∷ [];
}

abbrev kitchen : KitchenStore
kitchen = database (record { drops = lunch ∷ []; reservations = two_held ∷ [] })

abbrev three_more : ReservePortionsCommand
three_more = record { order_id = 61; lines = record { drop_id = 1; qty = 3 } ∷ [] }

reserve_portions-settled_example :
    reserve_portions in_memory clock 600 7 three_more kitchen
    ≡ settled clock 7 none
        (reserve_outcome clock 600 three_more (taken three_more.lines (lunch ∷ [])) none kitchen)
        kitchen
reserve_portions-settled_example =
    reserve_portions-settled in_memory in_memory-Documented clock 600 7 three_more kitchen

abbrev give_up : ReleasePortionsCommand
give_up = record { order_id = 60; reservation_id = 50 }

release_portions-settled_example :
    release_portions in_memory clock 7 give_up kitchen
    ≡ settled clock 7 none (release_outcome (some two_held) kitchen) kitchen
release_portions-settled_example =
    release_portions-settled in_memory in_memory-Documented clock 7 give_up kitchen

abbrev accept_it : AcceptOrderCommand
accept_it = record { order_id = 60 }

accept_order-settled_example :
    accept_order in_memory clock 7 accept_it kitchen
    ≡ settled clock 7 none (accept_outcome accept_it (some two_held) kitchen) kitchen
accept_order-settled_example =
    accept_order-settled in_memory in_memory-Documented clock 7 accept_it kitchen

sweep_one-settled_example :
    sweep_one in_memory clock two_held kitchen ≡ sweep_outcome two_held (some two_held) kitchen
sweep_one-settled_example = sweep_one-settled in_memory in_memory-Documented clock two_held kitchen

kitchen-IsConserved : IsConserved kitchen.tables
unfolding is_released
kitchen-IsConserved = (refl, refl, refl, tt)

abbrev reserved_three : KitchenStore
reserved_three = (reserve_portions in_memory clock 600 7 three_more kitchen).1

abbrev reserving : Reach in_memory kitchen reserved_three
reserving = next here (reserve clock 600 7 three_more)

Reach-IsConserved_example : IsConserved reserved_three.tables
Reach-IsConserved_example = Reach-IsConserved in_memory-Documented reserving kitchen-IsConserved

never_oversold_example : held_for 1 reserved_three.tables.reservations ≤ 10
unfolding reserve_portions consume reserve_work take_lines take_line create_reservation
never_oversold_example =
    never_oversold in_memory-Documented reserving kitchen-IsConserved 1
      (record lunch { available = 5; reserved = 5 }) refl

abbrev swept_kitchen : KitchenStore
swept_kitchen = database (record {
  drops = record lunch { available = 10; reserved = 0 } ∷ [];
  reservations = record two_held { status = released } ∷ [];
})

accept_after_release_example :
    let after = accept_order in_memory clock 7 accept_it swept_kitchen in
    let reply : SagaReply = record {
      order_id = accept_it.order_id;
      step = SagaStep.accept_order;
      status = ok_status;
      reason = none;
      result = none;
    } in
    let row =
      outbox_row clock (create_outbox_message clock 0 saga_reply (Payload.reply_body reply)) in
    (after.0 ≡ ok tt)
    × (for_order accept_it.order_id after.1.tables.reservations
        ≡ some (record two_held { status = confirmed }))
    × (after.1.outbox ≡ row ∷ [])
    × (after.1.tables.drops ≡ swept_kitchen.tables.drops)
    × ((k : Key)
        → held_for k after.1.tables.reservations
          ≡ held_for k swept_kitchen.tables.reservations + portions_of k two_held.items)
unfolding is_released
accept_after_release_example =
    accept_after_release in_memory in_memory-Documented clock 7 accept_it swept_kitchen
      (record two_held { status = released }) refl refl refl

list_drops-live_example :
    (shown : List Drop) × (list_drops in_memory insertion none kitchen ≡ ok (map to_proto shown))
    × Perm shown (lunch ∷ [])
    × IsAscending (λ d. d.window_from) shown
list_drops-live_example =
    list_drops-live in_memory insertion in_memory-Documented insertion-Orders kitchen

release_expired_reservations-IsCount_example :
    let (count, t) = release_expired_reservations in_memory clock kitchen in
    IsCount count (held_count kitchen) (held_count t)
release_expired_reservations-IsCount_example =
    release_expired_reservations-IsCount in_memory in_memory-Documented clock kitchen

seed-reset_example :
    (seed in_memory 9000000 (record { kitchens = []; kitchen = kitchen.tables })
      ≡ (ok (2, 2), seeded 9000000))
    × IsConserved (seeded 9000000).kitchen
seed-reset_example =
    seed-reset in_memory in_memory-Documented 9000000
      (record { kitchens = []; kitchen = kitchen.tables })

-- Three and two portions of one drop.
abbrev in_two_lines : ReservePortionsCommand
in_two_lines = record {
  order_id = 71;
  lines = record { drop_id = 1; qty = 3 } ∷ record { drop_id = 1; qty = 2 } ∷ [];
}

reserve_portions-booking_example :
    reserve_portions in_memory clock 600 7 in_two_lines kitchen
    ≡ settled clock 7 none
        (reserve_outcome clock 600 in_two_lines
          (booking in_two_lines.lines (lunch ∷ []))
          none
          kitchen)
        kitchen
reserve_portions-booking_example =
    reserve_portions-booking in_memory in_memory-Documented clock 600 7 in_two_lines kitchen
      (refl, tt)
