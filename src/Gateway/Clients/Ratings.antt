-- ===== src/Gateway/Clients/Ratings.antt =====
-- RatingsClient.
use hotdrop_orchestration.Base.{Key, List, map}
use hotdrop_orchestration.Prisma.{Prisma}
use hotdrop_orchestration.Prisma.Ordering.{OrderBy}
use hotdrop_orchestration.Messaging.{Env}
use hotdrop_orchestration.Gateway.Http.{HttpResult, http_map, from_grpc}
use hotdrop_orchestration.Gateway.Clients.{or_empty, from_grpc_on}
use hotdrop_orchestration.Result.{ok}
use hotdrop_orchestration.Ratings as RatingsQuery
use hotdrop_orchestration.Ratings.{RatingsStore, RatingInput, TicketInput}
use hotdrop_orchestration.Gateway.Grpc.{
  Wire, GrpcRating, GrpcSupportTicket, grpc_rating, grpc_ticket,
}

module _ (db : Prisma) where
  unfoldable pub create_rating :
      Env → RatingInput → RatingsStore → HttpResult GrpcRating × RatingsStore
  unfolding from_grpc grpc_rating
  create_rating env input s = from_grpc_on grpc_rating (RatingsQuery.create_rating db env input s)

  unfoldable pub list_ratings : Wire → OrderBy → Key → RatingsStore → HttpResult (List GrpcRating)
  unfolding from_grpc grpc_rating
  list_ratings wire order drop_id s =
      http_map (λ ratings. or_empty (wire.repeated (map grpc_rating ratings)))
        (from_grpc (ok (RatingsQuery.list_ratings db order drop_id s)))

  unfoldable pub create_support_ticket :
      Env → TicketInput → RatingsStore → HttpResult GrpcSupportTicket × RatingsStore
  unfolding from_grpc grpc_ticket
  create_support_ticket env input s =
      from_grpc_on grpc_ticket (RatingsQuery.create_support_ticket db env input s)
