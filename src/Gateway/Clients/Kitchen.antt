-- ===== src/Gateway/Clients/Kitchen.antt =====
-- KitchenClient.
use hotdrop_orchestration.Base.{Key, String, some, List, map}
use hotdrop_orchestration.Prisma.{Prisma}
use hotdrop_orchestration.Prisma.Ordering.{OrderBy}
use hotdrop_orchestration.Gateway.Http.{HttpResult, http_map, from_grpc}
use hotdrop_orchestration.Gateway.Clients.{or_empty}
use hotdrop_orchestration.Kitchen.{KitchenStore}
use hotdrop_orchestration.Kitchen.Query as KitchenQuery
use hotdrop_orchestration.Gateway.Grpc.{Wire, GrpcDrop, grpc_drop}

module _ (db : Prisma) (wire : Wire) where
  unfoldable pub list_drops : OrderBy → String → KitchenStore → HttpResult (List GrpcDrop)
  unfolding from_grpc grpc_drop
  list_drops order status s =
      http_map (λ drops. or_empty (wire.repeated (map (grpc_drop wire) drops)))
        (from_grpc (KitchenQuery.list_drops db order (some status) s))

  unfoldable pub get_drop : Key → KitchenStore → HttpResult GrpcDrop
  unfolding from_grpc grpc_drop
  get_drop drop_id s = http_map (grpc_drop wire) (from_grpc (KitchenQuery.get_drop db drop_id s))
