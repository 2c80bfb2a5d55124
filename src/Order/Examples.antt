-- ===== src/Order/Examples.antt =====
-- Runs of the order service and its orchestrator at concrete inputs.
use hotdrop_orchestration.Base.{◌+◌, arith, ◌≡◌, refl, ap, true, false, none, some, [], ◌∷◌, ◌++◌}
use hotdrop_orchestration.Contracts.{OrderStatus, OrderEvent, SagaReply, SagaStep, ok_status}
use hotdrop_orchestration.Result.{ok}
use hotdrop_orchestration.Prisma.{in_memory, in_memory-Documented}
use hotdrop_orchestration.Examples.{clock, database}
use hotdrop_orchestration.Order.{Order, SagaInstance, OrderStore}
use hotdrop_orchestration.Order.Orchestrator.{
  on_reply, on_delivered, cancel_order, is_terminal, is_cancellable,
}
use hotdrop_orchestration.Order.Orchestrator.Plan.{
  reply_reaction, delivery_reaction, cancel_reaction, settled, requested, order_of, send,
  release_of, changed, ended, with_inbox,
}
use hotdrop_orchestration.Order.Orchestrator.Refinement.{
  on_reply-settled, on_delivered-settled, cancel_order-requested,
}
use hotdrop_orchestration.Order.Orchestrator.Safety.{reply, cancel, run, run_ended, on_reply_once}
use hotdrop_orchestration.Order.Orchestrator.Journey.{sent}
use hotdrop_orchestration.Order.Orchestrator.Forward.{
  forward_calls, forward_messages, run-forward_calls,
}
use hotdrop_orchestration.Order.Orchestrator.Races.{authorization_after_cancel}
use hotdrop_orchestration.Order.Service.{PlaceOrderInput, place_order, grpc_get_order, new_saga}
use hotdrop_orchestration.Order.Service.Placing.{placed, place-get}
use hotdrop_orchestration.Order.Orchestrator.Plan.{saga_of}
use hotdrop_orchestration.Order.Consumer.{a_reply, a_delivery, order_consumer, order_redelivery}
use hotdrop_orchestration.Participant.Delivery.{acknowledged}

abbrev order : Order
order = record {
  id = 60;
  customer_id = 3;
  status = OrderStatus.portions_reserved;
  delivery_address = "1 High Street";
  total_cents = 1250;
  created_at = 0;
  lines = record { drop_id = 1; qty = 2; unit_price_cents = 625 } ∷ [];
}

abbrev saga : SagaInstance
saga = record {
  order_id = 60;
  step = "AUTHORIZE_PAYMENT";
  compensating = false;
  reservation_id = some 50;
  payment_id = none;
  assignment_id = none;
  last_error = none;
}

abbrev orders : OrderStore
orders = database (record { orders = order ∷ []; sagas = saga ∷ [] })

abbrev authorized : SagaReply
authorized = record {
  order_id = 60;
  step = SagaStep.authorize_payment;
  status = ok_status;
  reason = none;
  result = some (record {
    reservation_id = none;
    payment_id = some 40;
    assignment_id = none;
    courier_id = none;
  });
}

on_reply-settled_example :
    on_reply in_memory clock 7 authorized orders
    ≡ settled clock 7 60 none (reply_reaction authorized (some order) (some saga)) orders
on_reply-settled_example = on_reply-settled in_memory in_memory-Documented clock 7 authorized orders

abbrev on_the_way : OrderStore
on_the_way = database (record {
  orders = record order { status = OrderStatus.courier_assigned } ∷ [];
  sagas = record saga { payment_id = some 40; assignment_id = some 30 } ∷ [];
})

on_delivered-settled_example :
    on_delivered in_memory clock 7 60 on_the_way
    ≡ settled clock 7 60 none
        (delivery_reaction 60
          (some (record order { status = OrderStatus.courier_assigned }))
          (some (record saga { payment_id = some 40; assignment_id = some 30 })))
        on_the_way
on_delivered-settled_example =
    on_delivered-settled in_memory in_memory-Documented clock 7 60 on_the_way

cancel_order-requested_example :
    cancel_order in_memory clock 60 3 orders
    ≡ requested clock 60 (cancel_reaction 60 3 (some order) (some saga)) orders
cancel_order-requested_example =
    cancel_order-requested in_memory in_memory-Documented clock 60 3 orders

abbrev over : Order
over = record order { status = OrderStatus.cancelled }

abbrev over_orders : OrderStore
over_orders = database (record { orders = over ∷ []; sagas = saga ∷ [] })

run_ended_example :
    order_of 60 (run in_memory (reply clock 7 authorized ∷ cancel clock 60 3 ∷ []) over_orders)
    ≡ some over
unfolding is_terminal
run_ended_example =
    run_ended in_memory in_memory-Documented (reply clock 7 authorized ∷ cancel clock 60 3 ∷ []) 60
      over_orders over refl refl

on_reply_once_example :
    let t =
      run in_memory
        (cancel clock 60 3 ∷ [])
        (on_reply in_memory clock 7 authorized over_orders).1 in
    on_reply in_memory clock 7 authorized t ≡ (ok tt, t)
unfolding is_terminal
on_reply_once_example =
    on_reply_once in_memory in_memory-Documented clock clock 7 authorized authorized over_orders
      (cancel clock 60 3 ∷ [])
      (ap (λ t. t.0)
        (on_reply-settled in_memory in_memory-Documented clock 7 authorized over_orders))

authorization_after_cancel_example :
    let (result, t) = cancel_order in_memory clock 60 3 orders in
    (result ≡ ok tt)
    × (t.outbox
        ≡ send clock 0
            (release_of order (some 50)
              ++ (changed order OrderStatus.cancelled
                  ∷ ended order OrderEvent.cancelled "CANCELLED_BY_CUSTOMER"
                  ∷ []))
            [])
    × (on_reply in_memory clock 7 authorized t ≡ (ok tt, with_inbox clock 7 t))
unfolding is_cancellable
authorization_after_cancel_example =
    authorization_after_cancel in_memory in_memory-Documented clock clock 3 7 authorized orders
      order saga refl refl refl refl refl refl

abbrev lunch_for_two : PlaceOrderInput
lunch_for_two = record {
  customer_id = 3;
  delivery_address = "1 High Street";
  lines = record { drop_id = 1; qty = 2; unit_price_cents = 625 } ∷ [];
}

abbrev no_orders : OrderStore
no_orders = database (record { orders = []; sagas = [] })

place-get_example :
    (place_order in_memory clock lunch_for_two no_orders
      ≡ (ok 100, placed clock lunch_for_two 1250 no_orders))
    × (grpc_get_order in_memory 100 3 (placed clock lunch_for_two 1250 no_orders)
        ≡ ok (record {
          id = 100;
          customer_id = 3;
          status = OrderStatus.placed;
          delivery_address = "1 High Street";
          total_cents = 1250;
          lines = lunch_for_two.lines;
        }))
    × (saga_of 100 (placed clock lunch_for_two 1250 no_orders) ≡ some (new_saga 100))
place-get_example = place-get in_memory in_memory-Documented clock lunch_for_two no_orders refl refl

order_redelivery_example :
    let t = (order_consumer in_memory clock 7 (a_reply authorized) over_orders).1 in
    order_consumer in_memory clock 7 (a_delivery (record { order_id = 60 })) t ≡ (true, t)
unfolding order_consumer is_terminal acknowledged
order_redelivery_example =
    order_redelivery in_memory in_memory-Documented clock clock 7 (a_reply authorized)
      (a_delivery (record { order_id = 60 })) over_orders
      (ap (λ t. (acknowledged t).0)
        (on_reply-settled in_memory in_memory-Documented clock 7 authorized over_orders))

abbrev new_row : Order
new_row = record order { status = OrderStatus.placed }

abbrev new_orders : OrderStore
new_orders = database (record { orders = new_row ∷ []; sagas = new_saga 60 ∷ [] })

run-forward_calls_example :
    let t = run in_memory (forward_calls 60 50 40 30 (λ n. clock) (λ n. 500 + n)) new_orders in
    (order_of 60 t ≡ some (record new_row { status = OrderStatus.completed }))
    × (saga_of 60 t
        ≡ some (record (new_saga 60) {
          step = "Completed";
          reservation_id = some 50;
          payment_id = some 40;
          assignment_id = some 30;
        }))
    × (sent t.outbox ≡ forward_messages 60 50 40 30 new_row)
run-forward_calls_example =
    run-forward_calls in_memory in_memory-Documented (λ n. clock) (λ n. 500 + n)
      (λ i j e. omega (arith, e)) 60 50 40 30 new_orders new_row (new_saga 60) refl refl refl refl
      (λ i. refl)
