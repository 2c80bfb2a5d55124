-- ===== src/Order/Service/Listing.antt =====
-- Which orders a customer is shown, and in which order.
use hotdrop_orchestration.Base.{Key, ◌≡◌, refl, List, map, keep, Perm, ◌==◌}
use hotdrop_orchestration.Prisma.{Prisma, Documented, is_in_memory}
use hotdrop_orchestration.Prisma.Ordering.{OrderBy, Orders, IsDescending}
use hotdrop_orchestration.Order.{Order, OrderStore}
use hotdrop_orchestration.Order.Service.{list_orders, to_view}

-- A customer is shown their own orders and no others, each exactly once, the newest first.
pub list_orders-newest :
    (db : Prisma) (order : OrderBy)
    → Documented db
    → Orders order
    → (customer_id : Key) (s : OrderStore)
    → (shown : List Order) × (list_orders db order customer_id s ≡ map to_view shown)
      × Perm shown (keep (λ o. o.customer_id == customer_id) s.tables.orders)
      × IsDescending (λ o. o.created_at) shown
unfolding list_orders
list_orders-newest db order documented law customer_id s =
    let own = keep (λ (o : Order). o.customer_id == customer_id) s.tables.orders in
    rw (is_in_memory documented) (
      order.descending (λ (o : Order). o.created_at) own,
      refl,
      law.descending-perm (λ (o : Order). o.created_at) own,
      law.descending-IsDescending (λ (o : Order). o.created_at) own,
    )
