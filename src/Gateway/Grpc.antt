-- ===== src/Gateway/Grpc.antt =====
-- The messages that the gateway gets over gRPC (clients/grpc.types.ts). A message is decoded by the
-- proto loader, with the option keepCase alone. What that does not settle is left open by the
-- parameter `Wire`: a repeated field without elements may be missing, and an int32 is what was sent
-- only below 2 ^ 31. An int32 that comes from a 32-bit column, or is a validated score, fits, and is
-- written as the service set it; a requested quantity, a price that was added up and the price sent
-- back with an order go through `int32`.
use hotdrop_orchestration.Base.{
  Key, ℕ, String, ◌≡◌, ◌⊎◌, Option, none, some, List, [], ◌∷◌, map, refl, inl, inr, ◌<◌, ◌^◌, ◌%◌,
  arith,
}
use hotdrop_orchestration.Contracts.{DropStatus, OrderStatus}
use hotdrop_orchestration.Order.{OrderLine}
use hotdrop_orchestration.Order.Service.{OrderView}
use hotdrop_orchestration.Kitchen.Query.{ProtoDish, ProtoDrop}
use hotdrop_orchestration.Ratings.{ProtoRating, ProtoSupportTicket}

pub record GrpcDish : Type 0 where
  pub id : Key
  pub name : String
  pub description : String
  pub price_cents : ℕ

pub record GrpcDrop : Type 0 where
  pub id : Key
  pub kitchen_id : Key
  pub status : DropStatus
  pub window_from : ℕ
  pub window_to : ℕ
  pub total_portions : ℕ
  pub available : ℕ
  pub price_per_portion_cents : ℕ
  pub dishes : Option (List GrpcDish)

pub record GrpcOrderLine : Type 0 where
  pub drop_id : Key
  pub qty : ℕ
  pub unit_price_cents : ℕ

pub record GrpcOrder : Type 0 where
  pub id : Key
  pub customer_id : Key
  pub status : OrderStatus
  pub delivery_address : String
  pub total_cents : ℕ
  pub lines : Option (List GrpcOrderLine)

pub record GrpcRating : Type 0 where
  pub id : Key
  pub drop_id : Key
  pub customer_id : Key
  pub score : ℕ
  pub comment : String
  pub created_at : ℕ

pub record GrpcSupportTicket : Type 0 where
  pub id : Key
  pub customer_id : Key
  pub subject : String
  pub created_at : ℕ

-- A repeated field, and an int32, as the other side reads it. What arrives for a number that is not
-- an int32 may be negative, which the numbers here are not, and nothing is said of it.
pub record Wire : Type 1 where
  pub int32 : ℕ → ℕ
  pub repeated : {A : Type 0} → List A → Option (List A)

abbrev pub FitsInt32 : ℕ → Type 0
FitsInt32 n = n < 2 ^ 31

-- A repeated field is what was sent, or missing where nothing was; a number that fits is carried.
pub record Delivers (wire : Wire) : Type 1 where
  pub int32_lem : (n : ℕ) → FitsInt32 n → wire.int32 n ≡ n
  pub repeated_lem :
      {A : Type 0} (xs : List A)
      → (wire.repeated xs ≡ some xs) ⊎ ((wire.repeated xs ≡ none) × (xs ≡ []))

-- The loader without the options defaults and arrays, and the 32 bits that are sent of a number,
-- read without a sign.
abbrev pub dropped_if_empty : {A : Type 0} → List A → Option (List A)
dropped_if_empty [] = none
dropped_if_empty (x ∷ xs) = some (x ∷ xs)

abbrev pub keep_case : Wire
keep_case = record { int32 = λ n. n % 2 ^ 32; repeated = dropped_if_empty }

keep_case_lem :
    {A : Type 0} (xs : List A)
    → (dropped_if_empty xs ≡ some xs) ⊎ ((dropped_if_empty xs ≡ none) × (xs ≡ []))
keep_case_lem [] = inr (refl, refl)
keep_case_lem (x ∷ xs) = inl refl

pub keep_case-Delivers : Delivers keep_case
keep_case-Delivers = record {
  int32_lem = λ n fits. omega (arith, fits);
  repeated_lem = keep_case_lem;
}

unfoldable pub grpc_dish : ProtoDish → GrpcDish
grpc_dish d = record {
  id = d.id;
  name = d.name;
  description = d.description;
  price_cents = d.price_cents;
}

unfoldable pub grpc_line : OrderLine → GrpcOrderLine
grpc_line l = record { drop_id = l.drop_id; qty = l.qty; unit_price_cents = l.unit_price_cents }

unfoldable pub grpc_rating : ProtoRating → GrpcRating
grpc_rating r = record {
  id = r.id;
  drop_id = r.drop_id;
  customer_id = r.customer_id;
  score = r.score;
  comment = r.comment;
  created_at = r.created_at;
}

unfoldable pub grpc_ticket : ProtoSupportTicket → GrpcSupportTicket
grpc_ticket t = record {
  id = t.id;
  customer_id = t.customer_id;
  subject = t.subject;
  created_at = t.created_at;
}

module _ (wire : Wire) where
  unfoldable pub grpc_drop : ProtoDrop → GrpcDrop
  unfolding grpc_dish
  grpc_drop d = record {
    id = d.id;
    kitchen_id = d.kitchen_id;
    status = d.status;
    window_from = d.window_from;
    window_to = d.window_to;
    total_portions = d.total_portions;
    available = d.available;
    price_per_portion_cents = wire.int32 d.price_per_portion_cents;
    dishes = wire.repeated (map grpc_dish d.dishes);
  }

  unfoldable pub grpc_order : OrderView → GrpcOrder
  unfolding grpc_line
  grpc_order o = record {
    id = o.id;
    customer_id = o.customer_id;
    status = o.status;
    delivery_address = o.delivery_address;
    total_cents = o.total_cents;
    lines = wire.repeated (map grpc_line o.lines);
  }
