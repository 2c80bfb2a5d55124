-- ===== src/Payment.antt =====
-- apps/payment-service: the emulated payment gateway (prisma/schema, payment.service.ts).
pub mod Service
pub mod Outcomes
pub mod Commands
pub mod Holds
pub mod Unchecked
pub mod Consumer
mod Examples
use hotdrop_orchestration.Base.{Key, ℕ, List, Bool, true, false}
use hotdrop_orchestration.Contracts.{PaymentStatus}
use hotdrop_orchestration.Messaging.{Store}

pub record Payment : Type 0 where
  pub id : Key
  pub order_id : Key
  pub status : PaymentStatus
  pub amount_cents : ℕ

pub record PaymentTables : Type 0 where
  pub payments : List Payment

abbrev pub PaymentStore : Type 0
PaymentStore = Store PaymentTables

abbrev pub payment_key : Payment → Key
payment_key p = p.id

abbrev pub payment_order_key : Payment → Key
payment_order_key p = p.order_id

unfoldable pub is_authorized : PaymentStatus → Bool
is_authorized PaymentStatus.authorized = true
is_authorized _ = false

unfoldable pub is_refunded : PaymentStatus → Bool
is_refunded PaymentStatus.refunded = true
is_refunded _ = false
