-- ===== src/Saga/Completion/Examples.antt =====
-- An order that goes well at concrete rows.
use hotdrop_orchestration.Base.{◌+◌, ◌≡◌, refl, some, [], ◌∷◌}
use hotdrop_orchestration.Contracts.{OrderStatus, DropStatus, Payload, SagaCommand, command}
use hotdrop_orchestration.Prisma.{in_memory, in_memory-Documented}
use hotdrop_orchestration.Messaging.{OutboxMessage, outbox_row, create_outbox_message}
use hotdrop_orchestration.Examples.{clock, database}
use hotdrop_orchestration.Order.{Order}
use hotdrop_orchestration.Order.Orchestrator.Plan.{order_of}
use hotdrop_orchestration.Order.Service.{PlaceOrderInput, place_order, line_inputs}
use hotdrop_orchestration.Kitchen.{Drop, take_out}
use hotdrop_orchestration.Kitchen.Service.{can_take}
use hotdrop_orchestration.Kitchen.Reserving.{for_order}
use hotdrop_orchestration.Payment.Outcomes.{by_id}
use hotdrop_orchestration.Dispatch.Assigning.{delivery_of}
use hotdrop_orchestration.Saga.Reserving.{placed_row}
use hotdrop_orchestration.Saga.System.{System, Reach, newest}
use hotdrop_orchestration.Saga.Completion.Run.{Worlds, CanComplete}
use hotdrop_orchestration.Saga.Completion.Completed.{held, paid, brought, Reach-completed}

abbrev pie : Drop
pie = record {
  id = 1;
  kitchen_id = 9;
  status = DropStatus.live;
  window_from = 0;
  window_to = 9000;
  total_portions = 10;
  available = 8;
  reserved = 2;
  dishes = [];
}

abbrev for_two : PlaceOrderInput
for_two = record {
  customer_id = 3;
  delivery_address = "1 High Street";
  lines = record { drop_id = 1; qty = 2; unit_price_cents = 900 } ∷ [];
}

-- Each service draws its messages' ids from a range of its own.
abbrev good_day : Worlds
good_day = record {
  orders = clock;
  kitchen = record clock { random_uuid = λ n. 2000 + n };
  payment = record clock { random_uuid = λ n. 3000 + n };
  dispatch = record clock { random_uuid = λ n. 4000 + n };
  ttl = 600;
  failure_rate = 10;
  draw = 40;
  courier = "Ada";
}

-- The services once the order was placed.
abbrev placed : System
placed = record {
  orders = (place_order in_memory clock for_two (database (record { orders = []; sagas = [] }))).1;
  kitchen = database (record { drops = pie ∷ []; reservations = [] });
  payment = database (record { payments = [] });
  dispatch = database (record { assignments = []; deliveries = [] });
}

abbrev its_row : Order
its_row = placed_row clock for_two (database (record { orders = []; sagas = [] }))

abbrev first_row : OutboxMessage
first_row = outbox_row clock (
    create_outbox_message clock 1 (command SagaCommand.reserve_portions)
      (Payload.reserve_body (record { order_id = its_row.id; lines = line_inputs its_row.lines })))

abbrev two_fewer : Drop
two_fewer = record pie { available = 6; reserved = 4 }

placed-CanComplete : CanComplete good_day placed its_row first_row (two_fewer ∷ [])
unfolding place_order can_take take_out outbox_row create_outbox_message
placed-CanComplete = record {
  asked = newest;
  body = refl;
  order_row = refl;
  saga_row = refl;
  is_placed = refl;
  fits = refl;
  no_reservation = refl;
  no_payment = refl;
  no_delivery = refl;
  is_accepted = refl;
  is_text = refl;
  reservation_new = refl;
  reservation_later = refl;
  reservation_apart = refl;
  payment_new = refl;
  payment_later = refl;
  payment_apart = refl;
  assignment_new = refl;
  at_orders = (
    refl,
    (refl, (refl, (refl, (refl, (refl, tt))))),
    (
      refl,
      (refl, (refl, (refl, (refl, tt)))),
      (
        refl,
        (refl, (refl, (refl, tt))),
        (refl, (refl, (refl, tt)), (refl, (refl, tt), (refl, tt, tt))),
      ),
    ),
  );
  at_kitchen = (refl, (refl, tt), (refl, tt, tt));
  at_payment = (refl, (refl, tt), (refl, tt, tt));
  at_dispatch = (refl, tt, tt);
}

Reach-completed_example :
    (t : System) × Reach in_memory placed t
    × (order_of its_row.id t.orders ≡ some (record its_row { status = OrderStatus.completed }))
    × (for_order its_row.id t.kitchen.tables.reservations ≡ some (held good_day placed its_row))
    × (by_id (good_day.payment.cuid placed.payment.drawn) t.payment
        ≡ some (paid good_day placed its_row))
    × (delivery_of its_row.id t.dispatch ≡ some (brought good_day placed its_row))
Reach-completed_example =
    Reach-completed in_memory-Documented good_day placed its_row first_row (two_fewer ∷ [])
      placed-CanComplete
