-- ===== src/Kitchen/Query.antt =====
-- apps/kitchen-service/src/kitchen/kitchen-query.service.ts and kitchen-query.controller.ts: a drop as
-- the gateway reads it. Times stay numbers.
pub mod Listing
use Prim.Native.String.{len}
use text.Mathlib.Text.{◌==◌ as ◌==ₜ◌}
use hotdrop_orchestration.Base.{
  Key, ℕ, ◌+◌, ◌≡◌, refl, ◌∙◌, ap, String, Bool, Option, none, some, List, [], ◌∷◌, map, total,
  first, is_some, ltb, if◌then◌else◌, ◌==◌, arith,
}
use hotdrop_orchestration.Contracts.{DropStatus, drop_status_text}
use hotdrop_orchestration.Result.{
  Result, ok, err, rpc_exception, invalid_value, GrpcStatus, drop_not_found,
}
use hotdrop_orchestration.Prisma.{Prisma, Documented, is_in_memory}
use hotdrop_orchestration.Prisma.Ordering.{OrderBy}
use hotdrop_orchestration.Kitchen.{Dish, Drop, KitchenStore, drop_key}

pub record ProtoDish : Type 0 where
  pub id : Key
  pub name : String
  pub description : String
  pub price_cents : ℕ

pub record ProtoDrop : Type 0 where
  pub id : Key
  pub kitchen_id : Key
  pub status : DropStatus
  pub window_from : ℕ
  pub window_to : ℕ
  pub total_portions : ℕ
  pub available : ℕ
  pub price_per_portion_cents : ℕ
  pub dishes : List ProtoDish

-- dish.description ?? ""
unfoldable pub description_of : Option String → String
description_of none = ""
description_of (some text) = text

unfoldable pub to_proto_dish : Dish → ProtoDish
unfolding description_of
to_proto_dish dish = record {
  id = dish.id;
  name = dish.name;
  description = description_of dish.description;
  price_cents = dish.price_cents;
}

-- dishes.reduce((sum, dish) => sum + dish.priceCents, 0)
unfoldable pub add_prices : ℕ → List ProtoDish → ℕ
add_prices sum [] = sum
add_prices sum (dish ∷ dishes) = add_prices (sum + dish.price_cents) dishes

unfoldable pub to_proto : Drop → ProtoDrop
unfolding to_proto_dish add_prices
to_proto drop =
    let dishes = map to_proto_dish drop.dishes in
    record {
      id = drop.id;
      kitchen_id = drop.kitchen_id;
      status = drop.status;
      window_from = drop.window_from;
      window_to = drop.window_to;
      total_portions = drop.total_portions;
      available = drop.available;
      price_per_portion_cents = add_prices 0 dishes;
      dishes = dishes;
    }

-- KitchenQueryController.getDrop over KitchenQueryService.getDrop.
unfoldable pub found_drop : Key → Option Drop → Result ProtoDrop
unfolding to_proto
found_drop drop_id none = err (rpc_exception GrpcStatus.not_found (drop_not_found drop_id))
found_drop drop_id (some drop) = ok (to_proto drop)

unfoldable pub get_drop : Prisma → Key → KitchenStore → Result ProtoDrop
unfolding found_drop
get_drop db drop_id s = found_drop drop_id (db.find_unique drop_key drop_id s.tables.drops)

-- status && status.length > 0 ? status : "LIVE"
unfoldable pub wanted_status : Option String → String
wanted_status none = "LIVE"
wanted_status (some text) = if ltb 0 (len text) then text else "LIVE"

unfoldable pub has_status : String → DropStatus → Bool
unfolding drop_status_text
has_status text status = drop_status_text status ==ₜ text

-- Whether a text is a value of the column's type; the client throws where it is not.
abbrev pub is_drop_status : String → Bool
is_drop_status text = is_some (
    first (has_status text) (
      DropStatus.draft ∷ DropStatus.scheduled ∷ DropStatus.live ∷ DropStatus.sold_out
      ∷ DropStatus.closed ∷ []))

module _ (db : Prisma) (order : OrderBy) where
  unfoldable pub drops_with : String → KitchenStore → Result (List ProtoDrop)
  unfolding to_proto has_status
  drops_with text s =
      let drops = db.find_many (λ d. has_status text d.status) s.tables.drops in
      if is_drop_status text
      then ok (map to_proto (order.ascending (λ d. d.window_from) drops))
      else err invalid_value

  -- KitchenQueryController.listDrops over KitchenQueryService.listDrops.
  unfoldable pub list_drops : Option String → KitchenStore → Result (List ProtoDrop)
  unfolding wanted_status drops_with
  list_drops status s = drops_with (wanted_status status) s

add_prices-total :
    (sum : ℕ) (dishes : List Dish)
    → add_prices sum (map to_proto_dish dishes) ≡ sum + total (λ d. d.price_cents) dishes
unfolding add_prices to_proto_dish
add_prices-total sum [] = omega arith
add_prices-total sum (d ∷ dishes) = omega (arith, add_prices-total (sum + d.price_cents) dishes)

-- A drop is read with the portions that are available and, as the price of a portion, the sum of the
-- prices of its dishes; a drop that does not exist gives NOT_FOUND.
abbrev pub drop_read : Key → Option Drop → Result ProtoDrop
drop_read drop_id none = err (rpc_exception GrpcStatus.not_found (drop_not_found drop_id))
drop_read drop_id (some d) = ok (record {
  id = d.id;
  kitchen_id = d.kitchen_id;
  status = d.status;
  window_from = d.window_from;
  window_to = d.window_to;
  total_portions = d.total_portions;
  available = d.available;
  price_per_portion_cents = total (λ x. x.price_cents) d.dishes;
  dishes = map to_proto_dish d.dishes;
})

found_drop_lem :
    (drop_id : Key) (found : Option Drop) → found_drop drop_id found ≡ drop_read drop_id found
unfolding found_drop to_proto
found_drop_lem drop_id none = refl
found_drop_lem drop_id (some d) =
    ap (λ (price : ℕ). ok (record (to_proto d) { price_per_portion_cents = price }))
      (add_prices-total 0 d.dishes ∙ omega arith)

-- getDrop answers for the drop with this id as `drop_read` says: its row, with the sum of its dishes'
-- prices as the price of a portion, and NOT_FOUND where there is no such drop.
pub get_drop-read :
    (db : Prisma)
    → Documented db
    → (drop_id : Key) (s : KitchenStore)
    → get_drop db drop_id s ≡ drop_read drop_id (first (λ d. d.id == drop_id) s.tables.drops)
unfolding get_drop
get_drop-read db law drop_id s =
    rw (is_in_memory law) (found_drop_lem drop_id (first (λ d. d.id == drop_id) s.tables.drops))
