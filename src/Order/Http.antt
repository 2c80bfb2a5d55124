-- ===== src/Order/Http.antt =====
-- apps/order-service/src/order/order.controller.ts: the internal HTTP edge of the order service.
use hotdrop_orchestration.Base.{Key, Option, none, some}
use hotdrop_orchestration.Result.{Result}
use hotdrop_orchestration.Prisma.{Prisma}
use hotdrop_orchestration.Messaging.{Env}
use hotdrop_orchestration.Order.{OrderStore}
use hotdrop_orchestration.Order.Service.{PlaceOrderInput, OrderView, place_order, get_order}

-- A NotFoundException, or what is found.
pub data Found : Type 0 where
  found : OrderView → Found
  not_found_http : Key → Found

unfoldable pub or_not_found : Key → Option OrderView → Found
or_not_found order_id none = not_found_http order_id
or_not_found order_id (some order) = found order

module _ (db : Prisma) where
  unfoldable pub http_place : Env → PlaceOrderInput → OrderStore → Result Key × OrderStore
  http_place env body s = place_order db env body s

  unfoldable pub http_get : Key → OrderStore → Found
  unfolding or_not_found
  http_get order_id s = or_not_found order_id (get_order db order_id s)
