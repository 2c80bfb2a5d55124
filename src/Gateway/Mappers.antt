-- ===== src/Gateway/Mappers.antt =====
-- contract/mappers.ts.
use hotdrop_orchestration.Base.{map}
use hotdrop_orchestration.Gateway.Grpc.{
  GrpcDish, GrpcDrop, GrpcOrderLine, GrpcOrder, GrpcRating, GrpcSupportTicket,
}
use hotdrop_orchestration.Gateway.Dto.{
  DishResponseDto, DropResponseDto, OrderLineResponseDto, OrderResponseDto, RatingResponseDto,
  SupportTicketResponseDto,
}
use hotdrop_orchestration.Gateway.Clients.{or_empty}

unfoldable pub to_dish_response_dto : GrpcDish → DishResponseDto
to_dish_response_dto dish = record {
  id = dish.id;
  name = dish.name;
  description = dish.description;
  price_cents = dish.price_cents;
}

unfoldable pub to_drop_response_dto : GrpcDrop → DropResponseDto
unfolding to_dish_response_dto
to_drop_response_dto d = record {
  id = d.id;
  kitchen_id = d.kitchen_id;
  status = d.status;
  window_from = d.window_from;
  window_to = d.window_to;
  total_portions = d.total_portions;
  available = d.available;
  price_per_portion_cents = d.price_per_portion_cents;
  dishes = map to_dish_response_dto (or_empty d.dishes);
}

unfoldable pub to_order_line_response_dto : GrpcOrderLine → OrderLineResponseDto
to_order_line_response_dto l = record {
  drop_id = l.drop_id;
  qty = l.qty;
  unit_price_cents = l.unit_price_cents;
}

unfoldable pub to_order_response_dto : GrpcOrder → OrderResponseDto
unfolding to_order_line_response_dto
to_order_response_dto o = record {
  id = o.id;
  customer_id = o.customer_id;
  status = o.status;
  delivery_address = o.delivery_address;
  total_cents = o.total_cents;
  lines = map to_order_line_response_dto (or_empty o.lines);
}

unfoldable pub to_rating_response_dto : GrpcRating → RatingResponseDto
to_rating_response_dto r = record {
  id = r.id;
  drop_id = r.drop_id;
  customer_id = r.customer_id;
  score = r.score;
  comment = r.comment;
  created_at = r.created_at;
}

unfoldable pub to_support_ticket_response_dto : GrpcSupportTicket → SupportTicketResponseDto
to_support_ticket_response_dto t = record {
  id = t.id;
  customer_id = t.customer_id;
  subject = t.subject;
  created_at = t.created_at;
}
