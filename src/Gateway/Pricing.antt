-- ===== src/Gateway/Pricing.antt =====
-- Placing an order through the gateway, the kitchen's prices and the order service together.
use mathlib.Core.Option.{some-injective}
use hotdrop_orchestration.Result.{ok}
use hotdrop_orchestration.Base.{
  suc, Key, ℕ, ◌≤◌, ◌≡◌, refl, ap, subst, Option, none, some, List, [], ◌∷◌, map, length, total,
  first, ◌==◌, inl, inr, arith, All, found_here, Bool-cases,
}
use hotdrop_orchestration.Contracts.{OrderStatus}
use hotdrop_orchestration.Prisma.{Prisma, Documented, in_memory, in_memory-Documented, is_in_memory}
use hotdrop_orchestration.Messaging.{Env}
use hotdrop_orchestration.Kitchen.{Drop, KitchenStore}
use hotdrop_orchestration.Kitchen.Query.{drop_read, get_drop-read}
use hotdrop_orchestration.Order.{OrderLine, OrderStore}
use hotdrop_orchestration.Order.Service.{grpc_place_order, placed_answer, PlaceOrderInput}
use hotdrop_orchestration.Order.Service.Placing.{line_price, placed, place-get}
use hotdrop_orchestration.Order.Orchestrator.Plan.{order_of, saga_of}
use hotdrop_orchestration.Gateway.Http.{
  HttpResult, answered, refused, not_found_exception, http_map, http_then, from_grpc,
  map_grpc_error,
}
use hotdrop_orchestration.Gateway.Grpc.{
  Wire, Delivers, FitsInt32, GrpcOrderLine, grpc_line, grpc_drop,
}
use hotdrop_orchestration.Gateway.Dto.{PlaceOrderDto, PlaceOrderLineDto, PlaceOrderResponseDto}
use hotdrop_orchestration.Gateway.Clients.Kitchen as KitchenClient
use hotdrop_orchestration.Gateway.Clients.Order as OrderClient
use hotdrop_orchestration.Gateway.Orders.{priced_lines, place_priced, place}

-- A line at the price of its drop, which is the sum of the prices of the drop's dishes.
abbrev pub sold_line : PlaceOrderLineDto → Drop → OrderLine
sold_line l d = record {
  drop_id = l.drop_id;
  qty = l.qty;
  unit_price_cents = total (λ dish. dish.price_cents) d.dishes;
}

abbrev pub add_sold :
    PlaceOrderLineDto → Option Drop → Option (List OrderLine) → Option (List OrderLine)
add_sold l (some d) (some lines) = some (sold_line l d ∷ lines)
add_sold l _ _ = none

-- The lines of an order at the kitchen's prices, if every drop exists.
abbrev pub sold_lines : List Drop → List PlaceOrderLineDto → Option (List OrderLine)
sold_lines drops [] = some []
sold_lines drops (l ∷ ls) = add_sold l (first (λ d. d.id == l.drop_id) drops) (sold_lines drops ls)

abbrev answered_lines : Option (List OrderLine) → HttpResult (List GrpcOrderLine)
answered_lines none = refused not_found_exception
answered_lines (some lines) = answered (map grpc_line lines)

-- The price of a portion is an int32.
abbrev pub PriceFits : Drop → Type 0
PriceFits d = FitsInt32 (total (λ dish. dish.price_cents) d.dishes)

abbrev LineFits : OrderLine → Type 0
LineFits l = FitsInt32 l.qty × FitsInt32 l.unit_price_cents

found-PriceFits :
    (id : Key) (drops : List Drop) (d : Drop)
    → All PriceFits drops
    → first (λ x. x.id == id) drops ≡ some d
    → PriceFits d
found-PriceFits id [] d fits e = cc
found-PriceFits id (x ∷ drops) d fits e = elim (Bool-cases (x.id == id)) [
  | inl here ↦ subst PriceFits (found_here (λ y. y.id == id) x d drops here e) fits.0
  | inr later ↦ found-PriceFits id drops d fits.1 (ground arith)
]

module _ (wire : Wire) (law : Delivers wire) where
  priced_line_lem :
      (l : PlaceOrderLineDto) (found : Option Drop) (sold : Option (List OrderLine))
      → ((d : Drop) → found ≡ some d → PriceFits d)
      → http_then (http_map (grpc_drop wire) (from_grpc (drop_read l.drop_id found))) (λ drop.
        http_map
          (λ lines.
            record {
              drop_id = l.drop_id;
              qty = l.qty;
              unit_price_cents = drop.price_per_portion_cents;
            }
            ∷ lines)
          (answered_lines sold))
        ≡ answered_lines (add_sold l found sold)
  unfolding from_grpc map_grpc_error grpc_drop grpc_line
  priced_line_lem l none sold fits = refl
  priced_line_lem l (some d) none fits = refl
  priced_line_lem l (some d) (some lines) fits = rw (law.int32_lem _ (fits d refl)) refl

  priced_lines_lem :
      (kitchen : KitchenStore) (ls : List PlaceOrderLineDto)
      → All PriceFits kitchen.tables.drops
      → priced_lines in_memory wire kitchen ls ≡ answered_lines (sold_lines kitchen.tables.drops ls)
  unfolding priced_lines KitchenClient.get_drop
  priced_lines_lem kitchen [] fits = refl
  priced_lines_lem kitchen (l ∷ ls) fits =
      rw
        (
          get_drop-read in_memory in_memory-Documented l.drop_id kitchen,
          priced_lines_lem kitchen ls fits,
        )
        (priced_line_lem l (first (λ d. d.id == l.drop_id) kitchen.tables.drops)
          (sold_lines kitchen.tables.drops ls)
          (λ d e. found-PriceFits l.drop_id kitchen.tables.drops d fits e))

  order_lines_lem :
      (lines : List OrderLine)
      → All LineFits lines
      → map (OrderClient.order_line wire) (map grpc_line lines) ≡ lines
  unfolding OrderClient.order_line grpc_line
  order_lines_lem [] fits = refl
  order_lines_lem (l ∷ lines) fits =
      rw (law.int32_lem l.qty fits.0.0, law.int32_lem l.unit_price_cents fits.0.1)
        (ap (λ ls. l ∷ ls) (order_lines_lem lines fits.1))

add_sold-LineFits :
    (l : PlaceOrderLineDto) (found : Option Drop) (sold : Option (List OrderLine))
    (lines : List OrderLine)
    → FitsInt32 l.qty
    → ((d : Drop) → found ≡ some d → PriceFits d)
    → ((rest : List OrderLine) → sold ≡ some rest → All LineFits rest)
    → add_sold l found sold ≡ some lines
    → All LineFits lines
add_sold-LineFits l none sold lines qty price h e = cc
add_sold-LineFits l (some d) none lines qty price h e = cc
add_sold-LineFits l (some d) (some rest) lines qty price h e =
    subst (All LineFits) (some-injective (sold_line l d ∷ rest) lines e)
      ((qty, price d refl), h rest refl)

sold_lines-LineFits :
    (drops : List Drop) (ls : List PlaceOrderLineDto) (lines : List OrderLine)
    → All PriceFits drops
    → All (λ l. FitsInt32 l.qty) ls
    → sold_lines drops ls ≡ some lines
    → All LineFits lines
sold_lines-LineFits drops [] [] price qty e = tt
sold_lines-LineFits drops [] (x ∷ lines) price qty e = cc
sold_lines-LineFits drops (l ∷ ls) lines price qty e =
    add_sold-LineFits l (first (λ d. d.id == l.drop_id) drops) (sold_lines drops ls) lines qty.0
      (λ d h. found-PriceFits l.drop_id drops d price h)
      (λ rest h. sold_lines-LineFits drops ls rest price qty.1 h) e

length-add_sold :
    {n : ℕ} (l : PlaceOrderLineDto) (found : Option Drop) (sold : Option (List OrderLine))
    (lines : List OrderLine)
    → ((rest : List OrderLine) → sold ≡ some rest → length rest ≡ n)
    → add_sold l found sold ≡ some lines
    → length lines ≡ suc n
length-add_sold l none sold lines h e = cc
length-add_sold l (some d) none lines h e = cc
length-add_sold {n} l (some d) (some rest) lines h e =
    subst (λ (xs : List OrderLine). length xs ≡ suc n)
      (some-injective (sold_line l d ∷ rest) lines e) (ap suc (h rest refl))

length-sold_lines :
    (drops : List Drop) (ls : List PlaceOrderLineDto) (lines : List OrderLine)
    → sold_lines drops ls ≡ some lines
    → length lines ≡ length ls
length-sold_lines drops [] [] e = refl
length-sold_lines drops [] (x ∷ lines) e = cc
length-sold_lines drops (l ∷ ls) lines e =
    length-add_sold l (first (λ d. d.id == l.drop_id) drops) (sold_lines drops ls) lines
      (λ rest h. length-sold_lines drops ls rest h) e

module _ (env : Env) (customer_id : Key) (dto : PlaceOrderDto) where
  -- What an order comes to: 404 where a drop does not exist, and else the placed order.
  abbrev pub placed_if :
      Option (List OrderLine) → OrderStore → HttpResult PlaceOrderResponseDto × OrderStore
  placed_if none s = (refused not_found_exception, s)
  placed_if (some lines) s =
      let input : PlaceOrderInput = record {
        customer_id = customer_id;
        delivery_address = dto.delivery_address;
        lines = lines;
      } in
      (
        answered (record { order_id = env.cuid s.drawn; status = OrderStatus.placed }),
        placed env input (total line_price lines) s,
      )

  received_lem :
      (s : OrderStore) (lines : List OrderLine)
      → order_of (env.cuid s.drawn) s ≡ none
      → saga_of (env.cuid s.drawn) s ≡ none
      → OrderClient.received_order in_memory env customer_id dto.delivery_address (some lines) s ≡ (
        ok (env.cuid s.drawn, OrderStatus.placed),
        placed env
            (record {
              customer_id = customer_id;
              delivery_address = dto.delivery_address;
              lines = lines;
            })
            (total line_price lines)
            s,
      )
  unfolding OrderClient.received_order grpc_place_order placed_answer
  received_lem s lines no_order no_saga =
      let input : PlaceOrderInput = record {
        customer_id = customer_id;
        delivery_address = dto.delivery_address;
        lines = lines;
      } in
      ap placed_answer (place-get in_memory in_memory-Documented env input s no_order no_saga).0

  place_cases :
      (wire : Wire)
      → Delivers wire
      → (s : OrderStore) (sold : Option (List OrderLine))
      → ((lines : List OrderLine) → sold ≡ some lines → (1 ≤ length lines) × All LineFits lines)
      → order_of (env.cuid s.drawn) s ≡ none
      → saga_of (env.cuid s.drawn) s ≡ none
      → place_priced in_memory wire env customer_id dto.delivery_address (answered_lines sold) s
        ≡ placed_if sold s
  unfolding place_priced OrderClient.place_order from_grpc
  place_cases wire law s none filled no_order no_saga = refl
  place_cases wire law s (some lines) filled no_order no_saga = elim (law.repeated_lem lines) [
    | inl e ↦ rw (
      order_lines_lem wire law lines (filled lines refl).1,
      e,
      received_lem s lines no_order no_saga,
    )
    | inr e ↦ absurd (omega (arith, (filled lines refl).0, ap length e.1))
  ]

-- An order placed through the gateway is charged at the kitchen's prices: where every line's drop
-- exists, the order and its saga are created with the sum, over the lines, of the quantity times the
-- prices of the drop's dishes; where a drop does not exist the answer is 404 and nothing is created.
-- The body has a line, as the validation requires, the new id is fresh, and the quantities and the
-- prices of a portion are below 2 ^ 31, as the messages carry them as int32.
pub place-placed_if :
    (db : Prisma)
    → Documented db
    → (wire : Wire) → Delivers wire
    → (env : Env) (customer_id : Key) (dto : PlaceOrderDto) (kitchen : KitchenStore)
      (s : OrderStore)
    → 1 ≤ length dto.lines
    → All (λ l. FitsInt32 l.qty) dto.lines
    → All PriceFits kitchen.tables.drops
    → order_of (env.cuid s.drawn) s ≡ none
    → saga_of (env.cuid s.drawn) s ≡ none
    → place db wire env customer_id dto kitchen s
      ≡ placed_if env customer_id dto (sold_lines kitchen.tables.drops dto.lines) s
unfolding place
place-placed_if db documented wire law env customer_id dto kitchen s filled qty price no_order
      no_saga =
    let drops = kitchen.tables.drops in
    rw (is_in_memory documented, priced_lines_lem wire law kitchen dto.lines price)
      (place_cases env customer_id dto wire law s (sold_lines drops dto.lines)
        (λ lines e. (
          omega (arith, filled, length-sold_lines drops dto.lines lines e),
          sold_lines-LineFits drops dto.lines lines price qty e,
        ))
        no_order no_saga)
