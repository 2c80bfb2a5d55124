-- ===== src/Gateway/Drops.antt =====
-- contract/drops.controller.ts.
use hotdrop_orchestration.Base.{Key, List, map}
use hotdrop_orchestration.Prisma.{Prisma}
use hotdrop_orchestration.Prisma.Ordering.{OrderBy}
use hotdrop_orchestration.Kitchen.{KitchenStore}
use hotdrop_orchestration.Ratings.{RatingsStore}
use hotdrop_orchestration.Gateway.Http.{HttpResult, http_map}
use hotdrop_orchestration.Gateway.Grpc.{Wire}
use hotdrop_orchestration.Gateway.Dto.{DropResponseDto, RatingResponseDto}
use hotdrop_orchestration.Gateway.Mappers.{to_drop_response_dto, to_rating_response_dto}
use hotdrop_orchestration.Gateway.Clients.Kitchen as KitchenClient
use hotdrop_orchestration.Gateway.Clients.Ratings as RatingsClient

module _ (db : Prisma) (wire : Wire) where
  unfoldable pub list_live : OrderBy → KitchenStore → HttpResult (List DropResponseDto)
  unfolding KitchenClient.list_drops to_drop_response_dto
  list_live order s =
      http_map (map to_drop_response_dto) (KitchenClient.list_drops db wire order "LIVE" s)

  unfoldable pub detail : Key → KitchenStore → HttpResult DropResponseDto
  unfolding KitchenClient.get_drop to_drop_response_dto
  detail drop_id s = http_map to_drop_response_dto (KitchenClient.get_drop db wire drop_id s)

  unfoldable pub drop_ratings : OrderBy → Key → RatingsStore → HttpResult (List RatingResponseDto)
  unfolding RatingsClient.list_ratings to_rating_response_dto
  drop_ratings order drop_id s =
      http_map (map to_rating_response_dto) (RatingsClient.list_ratings db wire order drop_id s)
