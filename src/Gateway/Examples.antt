-- ===== src/Gateway/Examples.antt =====
-- The gateway at concrete inputs.
use hotdrop_orchestration.Base.{
  All, List, Key, is_some, first, ◌==◌, true, ◌≡◌, ◌≤◌, refl, none, some, [], ◌∷◌, arith,
}
use Prim.Native.String.{len}
use hotdrop_orchestration.Contracts.{OrderStatus, DropStatus, OrderStatusChangedEvent}
use hotdrop_orchestration.Gateway.Tracking.{StatusPush, on_status_changed}
use hotdrop_orchestration.Gateway.Tracking.Rooms.{
  joins, joins-JoinsRooms, tracked, on_status_changed-tracked,
}
use hotdrop_orchestration.Prisma.{in_memory, in_memory-Documented}
use hotdrop_orchestration.Examples.{clock, database}
use hotdrop_orchestration.Order.{Order, OrderStore}
use hotdrop_orchestration.Kitchen.{Drop, KitchenStore}
use hotdrop_orchestration.Ratings.{RatingsStore}
use hotdrop_orchestration.Gateway.Grpc.{keep_case, keep_case-Delivers}
use hotdrop_orchestration.Gateway.Dto.{CreateRatingDto, PlaceOrderDto}
use hotdrop_orchestration.Gateway.Dto.Validation.{
  Json, Number, Items, Members, class_validator, class_validator-Validates, validate_place_order,
}
use hotdrop_orchestration.Gateway.Dto.Bounds.{IsWithin, validate_place_order-bounds}
use hotdrop_orchestration.Gateway.Orders.{rate, place}
use hotdrop_orchestration.Gateway.Rating.{rated_if, objection, rate-objection}
use hotdrop_orchestration.Gateway.Pricing.{placed_if, place-placed_if}

abbrev eaten : Order
eaten = record {
  id = 60;
  customer_id = 3;
  status = OrderStatus.completed;
  delivery_address = "1 High Street";
  total_cents = 1250;
  created_at = 0;
  lines = record { drop_id = 1; qty = 2; unit_price_cents = 625 } ∷ [];
}

abbrev orders : OrderStore
orders = database (record { orders = eaten ∷ []; sagas = [] })

abbrev ratings : RatingsStore
ratings = database (record { ratings = []; support_tickets = [] })

abbrev five : CreateRatingDto
five = record { drop_id = 1; score = 5; comment = none }

rate-objection_example :
    rate in_memory clock 3 60 five keep_case orders ratings
    ≡ rated_if keep_case clock 3 60 five (objection keep_case clock 3 60 five (some eaten)) ratings
rate-objection_example =
    rate-objection in_memory in_memory-Documented keep_case keep_case-Delivers clock 3 60 five
      orders ratings

abbrev menu : Drop
menu = record {
  id = 1;
  kitchen_id = 9;
  status = DropStatus.live;
  window_from = 0;
  window_to = 9000;
  total_portions = 10;
  available = 8;
  reserved = 2;
  dishes =
      record { id = 11; name = "soup"; description = none; price_cents = 350 }
      ∷ record { id = 12; name = "bread"; description = none; price_cents = 275 }
      ∷ [];
}

abbrev shelf : KitchenStore
shelf = database (record { drops = menu ∷ []; reservations = [] })

abbrev for_two : PlaceOrderDto
for_two = record {
  delivery_address = "1 High Street";
  lines = record { drop_id = 1; qty = 2 } ∷ [];
}

place-placed_if_example :
    place in_memory keep_case clock 3 for_two shelf orders
    ≡ placed_if clock 3 for_two
        (some (record { drop_id = 1; qty = 2; unit_price_cents = 625 } ∷ []))
        orders
place-placed_if_example =
    place-placed_if in_memory in_memory-Documented keep_case keep_case-Delivers clock 3 for_two
      shelf orders (omega arith) (omega arith, tt) (omega arith, tt) refl refl

abbrev order_body : Json
order_body = Json.object (
    Members.member "deliveryAddress" (Json.string "1 High Street") (
      Members.member "lines"
        (Json.array (
          Items.item
            (Json.object (
              Members.member "dropId" (Json.string "1")
                (Members.member "qty" (Json.number (Number.natural 2)) Members.no_members)))
            Items.no_items))
        Members.no_members))

validate_place_order-bounds_example :
    IsWithin 1 200 "1 High Street" × (1 ≤ 1) × ((1 ≤ 2) × Unit {0})
unfolding validate_place_order
validate_place_order-bounds_example =
    validate_place_order-bounds class_validator class_validator-Validates (λ t. len t) order_body
      for_two refl

-- Two clients that track orders 60 and 61; order 60 is picked up.
abbrev followers : List (Key × Key)
followers = (7, 60) ∷ (8, 61) ∷ []

abbrev picked : OrderStatusChangedEvent
picked = record { order_id = 60; customer_id = 3; status = OrderStatus.picked_up }

on_status_changed-tracked_example :
    let (pushes, is_acked) = on_status_changed joins picked (tracked joins followers []) in
    (is_some (first (λ (p : Key × StatusPush). p.0 == 7) pushes) ≡ true)
    × All
        (λ (p : Key × StatusPush). p.1 ≡ record { order_id = 60; status = OrderStatus.picked_up })
        pushes
    × (is_acked ≡ true)
on_status_changed-tracked_example =
    on_status_changed-tracked joins joins-JoinsRooms followers [] picked 7
