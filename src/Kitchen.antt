-- ===== src/Kitchen.antt =====
-- apps/kitchen-service: drops with their portion inventory, and reservations (prisma/schema and the
-- CHECK constraints of its migrations), and the service that moves portions between them.
pub mod Service
pub mod Sweeper
pub mod Inventory
pub mod Reserving
pub mod Totals
pub mod Commands
pub mod Accounts
pub mod Conservation
pub mod Sweeps
pub mod Swept
pub mod Kept
pub mod Portions
pub mod Races
pub mod Consumer
pub mod Query
pub mod Seed
mod Examples
use hotdrop_orchestration.Base.{
  Key, ℕ, ◌+◌, ◌-◌, String, Bool, true, false, Option, none, some, List, ltb, ◌==◌, if◌then◌else◌,
}
use hotdrop_orchestration.Contracts.{DropStatus}
use hotdrop_orchestration.Messaging.{Store}

pub record Dish : Type 0 where
  pub id : Key
  pub name : String
  pub description : Option String
  pub price_cents : ℕ

pub record Drop : Type 0 where
  pub id : Key
  pub kitchen_id : Key
  pub status : DropStatus
  pub window_from : ℕ
  pub window_to : ℕ
  pub total_portions : ℕ
  pub available : ℕ
  pub reserved : ℕ
  pub dishes : List Dish

pub data ReservationStatus : Type 0 where
  held confirmed released : ReservationStatus

pub record ReservationItem : Type 0 where
  pub drop_id : Key
  pub qty : ℕ

pub record Reservation : Type 0 where
  pub id : Key
  pub order_id : Key
  pub status : ReservationStatus
  pub expires_at : ℕ
  pub items : List ReservationItem

pub record KitchenTables : Type 0 where
  pub drops : List Drop
  pub reservations : List Reservation

abbrev pub KitchenStore : Type 0
KitchenStore = Store KitchenTables

abbrev pub drop_key : Drop → Key
drop_key d = d.id

abbrev pub reservation_key : Reservation → Key
reservation_key r = r.id

abbrev pub reservation_order_key : Reservation → Key
reservation_order_key r = r.order_id

unfoldable pub is_released : ReservationStatus → Bool
is_released released = true
is_released _ = false

unfoldable pub is_held : ReservationStatus → Bool
is_held held = true
is_held _ = false

-- The change { available: { increment: qty }, reserved: { decrement: qty } }. The constraint
-- drops_reserved_nonneg refuses the row where fewer than qty portions are reserved.
unfoldable pub give_back : ℕ → Drop → Option Drop
give_back qty d =
    if ltb d.reserved qty
    then none
    else some (record d { available = d.available + qty; reserved = d.reserved - qty })

-- The change { available: { decrement: qty }, reserved: { increment: qty } }, made where
-- available is at least qty.
unfoldable pub take_out : ℕ → Drop → Drop
take_out qty d = record d { available = d.available - qty; reserved = d.reserved + qty }
