-- ===== src/Gateway/Clients/Order.antt =====
-- OrderClient.
use hotdrop_orchestration.Base.{Key, String, Option, none, some, List, map}
use hotdrop_orchestration.Prisma.{Prisma}
use hotdrop_orchestration.Prisma.Ordering.{OrderBy}
use hotdrop_orchestration.Messaging.{Env}
use hotdrop_orchestration.Gateway.Http.{HttpResult, http_map, from_grpc}
use hotdrop_orchestration.Gateway.Clients.{or_empty, from_grpc_on}
use hotdrop_orchestration.Contracts.{OrderStatus}
use hotdrop_orchestration.Result.{Result, ok, err, type_error}
use hotdrop_orchestration.Order.{OrderLine, OrderStore}
use hotdrop_orchestration.Order.Service as OrderQuery
use hotdrop_orchestration.Gateway.Grpc.{Wire, GrpcOrder, GrpcOrderLine, grpc_order}

-- A line of the request as the order service reads it: both numbers are int32.
unfoldable pub order_line : Wire → GrpcOrderLine → OrderLine
order_line wire l = record {
  drop_id = l.drop_id;
  qty = wire.int32 l.qty;
  unit_price_cents = wire.int32 l.unit_price_cents;
}

module _ (db : Prisma) where
  -- What the order service does with the lines of a request: reading a missing list throws.
  unfoldable pub received_order :
      Env
      → Key
      → String
      → Option (List OrderLine)
      → OrderStore
      → Result (Key × OrderStatus) × OrderStore
  received_order env customer_id delivery_address none s = (err type_error, s)
  received_order env customer_id delivery_address (some lines) s =
      OrderQuery.grpc_place_order db env
        (record { customer_id = customer_id; delivery_address = delivery_address; lines = lines }) s

module _ (db : Prisma) (wire : Wire) where
  unfoldable pub place_order :
      Env
      → Key
      → String
      → List GrpcOrderLine
      → OrderStore
      → HttpResult (Key × OrderStatus) × OrderStore
  unfolding from_grpc received_order order_line
  place_order env customer_id delivery_address lines s =
      from_grpc_on (λ placed. placed)
        (received_order db env customer_id delivery_address
          (wire.repeated (map (order_line wire) lines)) s)

  unfoldable pub get_order : Key → Key → OrderStore → HttpResult GrpcOrder
  unfolding from_grpc grpc_order
  get_order order_id customer_id s =
      http_map (grpc_order wire) (from_grpc (OrderQuery.grpc_get_order db order_id customer_id s))

  unfoldable pub list_orders : OrderBy → Key → OrderStore → HttpResult (List GrpcOrder)
  unfolding from_grpc grpc_order
  list_orders order customer_id s =
      http_map (λ orders. or_empty (wire.repeated (map (grpc_order wire) orders)))
        (from_grpc (ok (OrderQuery.list_orders db order customer_id s)))

  unfoldable pub cancel_order : Env → Key → Key → OrderStore → HttpResult GrpcOrder × OrderStore
  unfolding from_grpc grpc_order
  cancel_order env order_id customer_id s =
      from_grpc_on (grpc_order wire) (OrderQuery.grpc_cancel_order db env order_id customer_id s)
