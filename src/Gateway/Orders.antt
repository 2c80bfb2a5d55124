-- ===== src/Gateway/Orders.antt =====
-- contract/orders.controller.ts.
use hotdrop_orchestration.Base.{
  Key, String, Bool, true, false, not, Option, none, some, List, [], ◌∷◌, map, is_some, first, ◌==◌,
  if◌then◌else◌,
}
use hotdrop_orchestration.Contracts.{OrderStatus}
use hotdrop_orchestration.Prisma.{Prisma}
use hotdrop_orchestration.Prisma.Ordering.{OrderBy}
use hotdrop_orchestration.Messaging.{Env}
use hotdrop_orchestration.Kitchen.{KitchenStore}
use hotdrop_orchestration.Order.{OrderStore}
use hotdrop_orchestration.Ratings.{RatingsStore, RatingInput}
use hotdrop_orchestration.Gateway.Http.{
  HttpResult, answered, refused, conflict_exception, bad_request_exception, internal_server_error,
  http_map, http_then,
}
use hotdrop_orchestration.Gateway.Grpc.{Wire, GrpcOrder, GrpcOrderLine}
use hotdrop_orchestration.Gateway.Dto.{
  PlaceOrderDto, PlaceOrderLineDto, PlaceOrderResponseDto, OrderResponseDto, CreateRatingDto,
  RatingResponseDto,
}
use hotdrop_orchestration.Gateway.Mappers.{to_order_response_dto, to_rating_response_dto}
use hotdrop_orchestration.Gateway.Clients.Kitchen as KitchenClient
use hotdrop_orchestration.Gateway.Clients.Order as OrderClient
use hotdrop_orchestration.Gateway.Clients.Ratings as RatingsClient

module _ (db : Prisma) (wire : Wire) where
  -- The loop over dto.lines: the price of each line's drop is read from the kitchen, and the first
  -- that cannot be read is thrown.
  unfoldable pub priced_lines :
      KitchenStore → List PlaceOrderLineDto → HttpResult (List GrpcOrderLine)
  unfolding KitchenClient.get_drop
  priced_lines kitchen [] = answered []
  priced_lines kitchen (line ∷ rest) =
      http_then (KitchenClient.get_drop db wire line.drop_id kitchen) (λ drop.
        http_map
          (λ lines.
            record {
              drop_id = line.drop_id;
              qty = line.qty;
              unit_price_cents = drop.price_per_portion_cents;
            }
            ∷ lines)
          (priced_lines kitchen rest))

  module _ (env : Env) (customer_id : Key) where
    unfoldable pub place_priced :
        String
        → HttpResult (List GrpcOrderLine)
        → OrderStore
        → HttpResult PlaceOrderResponseDto × OrderStore
    unfolding OrderClient.place_order
    place_priced address (refused e) s = (refused e, s)
    place_priced address (answered lines) s =
        let (result, t) = OrderClient.place_order db wire env customer_id address lines s in
        (http_map (λ r. record { order_id = r.0; status = r.1 }) result, t)

    unfoldable pub place :
        PlaceOrderDto → KitchenStore → OrderStore → HttpResult PlaceOrderResponseDto × OrderStore
    unfolding priced_lines place_priced
    place dto kitchen s = place_priced dto.delivery_address (priced_lines kitchen dto.lines) s

    unfoldable pub cancel : Key → OrderStore → HttpResult OrderResponseDto × OrderStore
    unfolding OrderClient.cancel_order to_order_response_dto
    cancel order_id s =
        let (order, t) = OrderClient.cancel_order db wire env order_id customer_id s in
        (http_map to_order_response_dto order, t)

  unfoldable pub list_own : OrderBy → Key → OrderStore → HttpResult (List OrderResponseDto)
  unfolding OrderClient.list_orders to_order_response_dto
  list_own order customer_id s =
      http_map (map to_order_response_dto) (OrderClient.list_orders db wire order customer_id s)

  unfoldable pub get_own : Key → Key → OrderStore → HttpResult OrderResponseDto
  unfolding OrderClient.get_order to_order_response_dto
  get_own customer_id order_id s =
      http_map to_order_response_dto (OrderClient.get_order db wire order_id customer_id s)

unfoldable pub is_completed : OrderStatus → Bool
is_completed OrderStatus.completed = true
is_completed _ = false

-- dto.comment ?? ""
unfoldable pub dto_comment : Option String → String
dto_comment none = ""
dto_comment (some text) = text

unfoldable pub rating_input : Key → Key → CreateRatingDto → RatingInput
unfolding dto_comment
rating_input customer_id order_id dto = record {
  order_id = order_id;
  drop_id = dto.drop_id;
  customer_id = customer_id;
  score = dto.score;
  comment = dto_comment dto.comment;
}

-- order.lines.some((l) => l.dropId === dto.dropId), which throws where the list is missing.
unfoldable pub has_drop : Key → Option (List GrpcOrderLine) → HttpResult Bool
has_drop drop_id none = refused internal_server_error
has_drop drop_id (some lines) = answered (is_some (first (λ l. l.drop_id == drop_id) lines))

module _ (db : Prisma) (env : Env) (customer_id order_id : Key) (dto : CreateRatingDto) where
  unfoldable pub rate_drop :
      HttpResult Bool → RatingsStore → HttpResult RatingResponseDto × RatingsStore
  unfolding rating_input RatingsClient.create_rating to_rating_response_dto
  rate_drop (refused e) s = (refused e, s)
  rate_drop (answered false) s = (refused bad_request_exception, s)
  rate_drop (answered true) s =
      let (rating, t) =
        RatingsClient.create_rating db env (rating_input customer_id order_id dto) s in
      (http_map to_rating_response_dto rating, t)

  unfoldable pub rate_order :
      HttpResult GrpcOrder → RatingsStore → HttpResult RatingResponseDto × RatingsStore
  unfolding is_completed has_drop rate_drop
  rate_order (refused e) s = (refused e, s)
  rate_order (answered order) s =
      if not (is_completed order.status)
      then (refused conflict_exception, s)
      else rate_drop (has_drop dto.drop_id order.lines) s

  unfoldable pub rate :
      Wire → OrderStore → RatingsStore → HttpResult RatingResponseDto × RatingsStore
  unfolding rate_order OrderClient.get_order
  rate wire orders s = rate_order (OrderClient.get_order db wire order_id customer_id orders) s
