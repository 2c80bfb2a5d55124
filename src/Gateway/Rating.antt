-- ===== src/Gateway/Rating.antt =====
-- Which ratings the gateway lets through.
use hotdrop_orchestration.Base.{
  Key, ◌≡◌, refl, sym, ap, ◌∙◌, false, not, Option, none, some, List, [], ◌∷◌, map, is_some, first,
  ◌==◌, if◌then◌else◌, Bool-cases, inl, inr, arith,
}
use hotdrop_orchestration.Prisma.{Prisma, Documented, in_memory, is_in_memory}
use hotdrop_orchestration.Messaging.{Env}
use hotdrop_orchestration.Order.{Order, OrderLine, OrderStore}
use hotdrop_orchestration.Order.Service.{to_view, view_of, owned_view, get_order, grpc_get_order}
use hotdrop_orchestration.Order.Orchestrator.Plan.{order_of}
use hotdrop_orchestration.Ratings.{RatingsStore, create_rating}
use hotdrop_orchestration.Gateway.Http.{
  HttpResult, HttpException, refused, not_found_exception, conflict_exception,
  bad_request_exception, internal_server_error, http_map, http_map_comp, map_grpc_error, from_grpc,
}
use hotdrop_orchestration.Gateway.Grpc.{Wire, Delivers, grpc_line, grpc_order, grpc_rating}
use hotdrop_orchestration.Gateway.Dto.{CreateRatingDto, RatingResponseDto}
use hotdrop_orchestration.Gateway.Mappers.{to_rating_response_dto}
use hotdrop_orchestration.Gateway.Clients.Order as OrderClient
use hotdrop_orchestration.Gateway.Clients.Ratings as RatingsClient
use hotdrop_orchestration.Gateway.Orders.{
  is_completed, has_drop, rating_input, rate_drop, rate_order, rate,
}

first-grpc_line :
    (drop_id : Key) (lines : List OrderLine)
    → is_some (first (λ l. l.drop_id == drop_id) (map grpc_line lines))
      ≡ is_some (first (λ l. l.drop_id == drop_id) lines)
unfolding grpc_line
first-grpc_line drop_id [] = refl
first-grpc_line drop_id (l ∷ lines) = ground (arith, first-grpc_line drop_id lines)

module _ (wire : Wire) (env : Env) (customer_id order_id : Key) (dto : CreateRatingDto) where
  -- What the order's lines say of a rating; an order without lines may arrive without the list, and
  -- then the test for the drop throws.
  abbrev pub line_objection : List OrderLine → Option HttpException
  line_objection lines =
      if is_some (first (λ l. l.drop_id == dto.drop_id) lines)
      then none
      else if is_some (wire.repeated (map grpc_line lines))
      then some bad_request_exception
      else some internal_server_error

  -- What the order says of a rating: the error that refuses it, or none.
  abbrev pub objection : Option Order → Option HttpException
  objection none = some not_found_exception
  objection (some o) =
      if not (o.customer_id == customer_id)
      then some not_found_exception
      else if not (is_completed o.status)
      then some conflict_exception
      else line_objection o.lines

  abbrev pub rated_if :
      Option HttpException → RatingsStore → HttpResult RatingResponseDto × RatingsStore
  rated_if (some e) s = (refused e, s)
  rated_if none s =
      let (rating, t) = create_rating in_memory env (rating_input customer_id order_id dto) s in
      (http_map (λ r. to_rating_response_dto (grpc_rating r)) (from_grpc rating), t)

  rate_drop_cases :
      Delivers wire
      → (lines : List OrderLine) (s : RatingsStore)
      → rate_drop in_memory env customer_id order_id dto
          (has_drop dto.drop_id (wire.repeated (map grpc_line lines)))
          s
        ≡ rated_if (line_objection lines) s
  unfolding rate_drop has_drop RatingsClient.create_rating
  rate_drop_cases law lines s = elim (law.repeated_lem (map grpc_line lines)) [
    | inl e ↦ elim (Bool-cases (is_some (first (λ l. l.drop_id == dto.drop_id) lines))) [
      | inl h ↦
          let out = create_rating in_memory env (rating_input customer_id order_id dto) s in
          rw (e, first-grpc_line dto.drop_id lines, h)
            (ap (λ (r : HttpResult RatingResponseDto). (r, out.1))
              (http_map_comp to_rating_response_dto grpc_rating (from_grpc out.0)))
      | inr h ↦ rw (e, first-grpc_line dto.drop_id lines, h)
    ]
    | inr e ↦
        let absent : is_some (first (λ l. l.drop_id == dto.drop_id) lines) ≡ false =
          sym (first-grpc_line dto.drop_id lines)
          ∙ ap (λ ls. is_some (first (λ l. l.drop_id == dto.drop_id) ls)) e.1 in
        rw (e.0, absent)
  ]

  rate_cases :
      Delivers wire
      → (found : Option Order) (s : RatingsStore)
      → rate_order in_memory env customer_id order_id dto
          (http_map (grpc_order wire) (from_grpc (owned_view order_id customer_id (view_of found))))
          s
        ≡ rated_if (objection found) s
  unfolding rate_order owned_view view_of to_view map_grpc_error from_grpc grpc_order
  rate_cases law none s = refl
  rate_cases law (some o) s = elim (Bool-cases (o.customer_id == customer_id)) [
    | inr other ↦ rw other
    | inl own ↦ elim (Bool-cases (is_completed o.status)) [
      | inr early ↦ rw (own, early)
      | inl over ↦ rw (own, over) (rate_drop_cases law o.lines s)
    ]
  ]

-- The gateway hands a rating to the ratings service exactly where the order exists, is the caller's,
-- is COMPLETED and has a line with the rated drop, and answers as that service does; else it changes
-- nothing and answers 404 for an order that is missing or another's, 409 for one that is not
-- COMPLETED, and 400 for a drop that is not in the order, or 500 where the order has no lines at all
-- and their list does not arrive.
pub rate-objection :
    (db : Prisma)
    → Documented db
    → (wire : Wire) → Delivers wire
    → (env : Env) (customer_id order_id : Key) (dto : CreateRatingDto) (orders : OrderStore)
      (s : RatingsStore)
    → rate db env customer_id order_id dto wire orders s
      ≡ rated_if wire env customer_id order_id dto
          (objection wire env customer_id order_id dto (order_of order_id orders))
          s
unfolding rate OrderClient.get_order grpc_get_order get_order
rate-objection db documented wire law env customer_id order_id dto orders s =
    rw (is_in_memory documented)
      (rate_cases wire env customer_id order_id dto law (order_of order_id orders) s)
