-- ===== src/Saga/Examples.antt =====
-- A saga's first step at concrete rows.
use hotdrop_orchestration.Base.{◌≡◌, refl, some, [], ◌∷◌, ◌++◌}
use hotdrop_orchestration.Contracts.{
  OrderStatus, DropStatus, PaymentStatus, Payload, PaymentCommand, SagaCommand, command,
}
use hotdrop_orchestration.Prisma.{in_memory, in_memory-Documented}
use hotdrop_orchestration.Examples.{clock, database}
use hotdrop_orchestration.Order.{Order, OrderStore}
use hotdrop_orchestration.Order.Orchestrator.{
  cancel_order, cancel_rows, is_cancelled, is_cancellable, cancel_now, emit_void, emit_release,
  close_with, set_status, update_order, update_saga,
}
use hotdrop_orchestration.Payment.{Payment}
use hotdrop_orchestration.Saga.Ties.World.{terms_of}
use hotdrop_orchestration.Order.Service.{PlaceOrderInput, place_order, new_saga}
use hotdrop_orchestration.Order.Orchestrator.Plan.{order_of}
use hotdrop_orchestration.Order.Orchestrator.Journey.{sent}
use hotdrop_orchestration.Kitchen.{Drop, KitchenStore, take_out}
use hotdrop_orchestration.Kitchen.Service.{can_take}
use hotdrop_orchestration.Saga.{newest as newest_of, kitchen_hears, orders_hear}
use hotdrop_orchestration.Saga.System.{
  System, Reach, here, next, IsRow, newest, placing, at_kitchen, cancelling,
}
use hotdrop_orchestration.Saga.Ties.Interleaving.{IsTied, Reach-IsTied}
use hotdrop_orchestration.Saga.Ties.Charges.{ChargesTotal, Reach-ChargesTotal}
use hotdrop_orchestration.Messaging.{OutboxMessage, outbox_row, create_outbox_message}
use hotdrop_orchestration.Saga.Answers.{tables_after}
use hotdrop_orchestration.Saga.Reserving.{placed_row, first_command, messages_after, place-reserve}

abbrev lunch : Drop
lunch = record {
  id = 1;
  kitchen_id = 9;
  status = DropStatus.live;
  window_from = 0;
  window_to = 9000;
  total_portions = 10;
  available = 8;
  reserved = 2;
  dishes = [];
}

abbrev orders : OrderStore
orders = database (record { orders = []; sagas = [] })

abbrev kitchen : KitchenStore
kitchen = database (record { drops = lunch ∷ []; reservations = [] })

abbrev for_three : PlaceOrderInput
for_three = record {
  customer_id = 3;
  delivery_address = "1 High Street";
  lines = record { drop_id = 1; qty = 3; unit_price_cents = 625 } ∷ [];
}

place-reserve_example :
    let t = (place_order in_memory clock for_three orders).1 in
    let after = kitchen_hears in_memory clock 600 (newest_of t.outbox) kitchen in
    let u = orders_hear in_memory clock (newest_of after.outbox) t in
    let row = placed_row clock for_three orders in
    let room = some (record lunch { available = 5; reserved = 5 } ∷ []) in
    (after.tables ≡ tables_after clock 600 kitchen (first_command clock for_three orders) room)
    × (order_of row.id u ≡ some (record row { status = OrderStatus.portions_reserved }))
    × (sent u.outbox ≡ sent t.outbox ++ messages_after row room)
unfolding can_take take_out
place-reserve_example =
    place-reserve in_memory in_memory-Documented clock clock clock 600 for_three orders kitchen refl
      refl refl refl (λ n. refl)

-- Four services with nothing of any order yet, and the kitchen's drop.
abbrev start : System
start = record {
  orders = orders;
  kitchen = kitchen;
  payment = database (record { payments = [] });
  dispatch = database (record { assignments = []; deliveries = [] });
}

start-IsTied : IsTied start
start-IsTied = record {
  orders = (tt, tt);
  kitchen = (tt, tt);
  payment = (tt, tt);
  dispatch = (tt, tt);
}

abbrev ordered : System
ordered = record start { orders = (place_order in_memory clock for_three orders).1 }

-- The row of the first command.
abbrev asked : OutboxMessage
asked = outbox_row clock (
    create_outbox_message clock 1 (command SagaCommand.reserve_portions)
      (Payload.reserve_body (first_command clock for_three orders)))

asked-IsRow : IsRow asked ordered.orders.outbox
unfolding place_order
asked-IsRow = newest

abbrev held : System
held = record ordered { kitchen = kitchen_hears in_memory clock 600 (some asked) kitchen }

placed_and_held : Reach in_memory start held
placed_and_held =
    next (next here (placing clock for_three refl)) (at_kitchen clock 600 asked asked-IsRow refl)

Reach-IsTied_example : IsTied held
Reach-IsTied_example = Reach-IsTied in_memory-Documented placed_and_held start-IsTied

-- An order whose payment is on hold.
abbrev paid_order : Order
paid_order = record {
  id = 4;
  customer_id = 3;
  status = OrderStatus.payment_authorized;
  delivery_address = "1 High Street";
  total_cents = 1875;
  created_at = 0;
  lines = [];
}

abbrev its_payment : Payment
its_payment = record {
  id = 7;
  order_id = 4;
  status = PaymentStatus.authorized;
  amount_cents = 1875;
}

abbrev paying : System
paying = record start {
  orders = database (record {
    orders = paid_order ∷ [];
    sagas = record (new_saga 4) { payment_id = some 7 } ∷ [];
  });
  payment = database (record { payments = its_payment ∷ [] });
}

paying-IsTied : IsTied paying
paying-IsTied = record {
  orders = (tt, ((tt, (its_payment, refl, refl), tt), tt));
  kitchen = (tt, tt);
  payment = (
    (((its_payment, refl, refl), (terms_of paid_order, (paid_order, refl, refl), refl)), tt),
    tt,
  );
  dispatch = (tt, tt);
}

abbrev void : PaymentCommand
void = record { order_id = 4; payment_id = 7 }

-- The row that asks for the void of the payment.
abbrev void_row : OutboxMessage
void_row =
    outbox_row clock
      (create_outbox_message clock 0 (command SagaCommand.void_payment) (Payload.payment_body void))

abbrev given_up : System
given_up = record paying { orders = (cancel_order in_memory clock 4 3 (paying.orders)).1 }

void-IsRow : IsRow void_row given_up.orders.outbox
unfolding cancel_order cancel_rows is_cancelled is_cancellable cancel_now emit_void emit_release
    close_with set_status update_order update_saga
void-IsRow = newest

Reach-ChargesTotal_example : ChargesTotal given_up void
unfolding outbox_row create_outbox_message
Reach-ChargesTotal_example =
    Reach-ChargesTotal in_memory-Documented (next here (cancelling clock 4 3)) paying-IsTied
      void_row void void-IsRow refl
