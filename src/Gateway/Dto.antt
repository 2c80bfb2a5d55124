-- ===== src/Gateway/Dto.antt =====
-- contract/dto: the bodies that the gateway accepts and returns. The validation of the accepted ones
-- is in a child.
pub mod Validation
pub mod Bounds
use hotdrop_orchestration.Base.{Key, ℕ, String, Option, List}
use hotdrop_orchestration.Contracts.{OrderStatus, DropStatus}

pub record PlaceOrderLineDto : Type 0 where
  pub drop_id : Key
  pub qty : ℕ

pub record PlaceOrderDto : Type 0 where
  pub delivery_address : String
  pub lines : List PlaceOrderLineDto

pub record CreateRatingDto : Type 0 where
  pub drop_id : Key
  pub score : ℕ
  pub comment : Option String

pub record CreateSupportTicketDto : Type 0 where
  pub subject : String
  pub body : String

pub record OrderLineResponseDto : Type 0 where
  pub drop_id : Key
  pub qty : ℕ
  pub unit_price_cents : ℕ

pub record OrderResponseDto : Type 0 where
  pub id : Key
  pub customer_id : Key
  pub status : OrderStatus
  pub delivery_address : String
  pub total_cents : ℕ
  pub lines : List OrderLineResponseDto

pub record PlaceOrderResponseDto : Type 0 where
  pub order_id : Key
  pub status : OrderStatus

pub record DishResponseDto : Type 0 where
  pub id : Key
  pub name : String
  pub description : String
  pub price_cents : ℕ

pub record DropResponseDto : Type 0 where
  pub id : Key
  pub kitchen_id : Key
  pub status : DropStatus
  pub window_from : ℕ
  pub window_to : ℕ
  pub total_portions : ℕ
  pub available : ℕ
  pub price_per_portion_cents : ℕ
  pub dishes : List DishResponseDto

pub record RatingResponseDto : Type 0 where
  pub id : Key
  pub drop_id : Key
  pub customer_id : Key
  pub score : ℕ
  pub comment : String
  pub created_at : ℕ

pub record SupportTicketResponseDto : Type 0 where
  pub id : Key
  pub customer_id : Key
  pub subject : String
  pub created_at : ℕ
