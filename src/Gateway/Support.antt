-- ===== src/Gateway/Support.antt =====
-- contract/support.controller.ts.
use hotdrop_orchestration.Base.{Key}
use hotdrop_orchestration.Prisma.{Prisma}
use hotdrop_orchestration.Messaging.{Env}
use hotdrop_orchestration.Ratings.{RatingsStore}
use hotdrop_orchestration.Gateway.Http.{HttpResult, http_map}
use hotdrop_orchestration.Gateway.Dto.{CreateSupportTicketDto, SupportTicketResponseDto}
use hotdrop_orchestration.Gateway.Mappers.{to_support_ticket_response_dto}
use hotdrop_orchestration.Gateway.Clients.Ratings as RatingsClient

-- create
unfoldable pub create_ticket :
    Prisma
    → Env
    → Key
    → CreateSupportTicketDto
    → RatingsStore
    → HttpResult SupportTicketResponseDto × RatingsStore
unfolding RatingsClient.create_support_ticket to_support_ticket_response_dto
create_ticket db env customer_id dto s =
    let (ticket, t) =
      RatingsClient.create_support_ticket db env
        (record { customer_id = customer_id; subject = dto.subject; body = dto.body }) s in
    (http_map to_support_ticket_response_dto ticket, t)
