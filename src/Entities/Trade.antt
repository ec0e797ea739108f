-- ===== src/Entities/Trade.antt =====
-- The rows of orders, inventory, stations, riders and commissions: backend/src/orders/entities,
-- backend/src/inventory/entities, backend/src/stations/entities, backend/src/riders/entities and backend/src/admin/entities.
use powergas.Base.{ℕ, ℤ, Bool, Option}
use powergas.Enums.{
  OrderStatus, OrderType, DeliveryTier, BatchStatus, PaymentStatus, PaymentMethod, RiderStatus,
  WalletTransactionType, WalletTransactionReason, VerificationStatus, StockStatus,
}
use powergas.Table.{Uuid}
use powergas.Entities.Units.{Text, Cents, Time}

-- `PG-${date}-${number}`: the day, and the number before it is padded to four digits.
pub record OrderNumber : Type 0 where
  pub date : ℕ
  pub number : ℕ

pub record Order : Type 0 where
  pub order_number : OrderNumber
  pub customer_id : Uuid
  pub station_id : Uuid
  pub rider_id : Option Uuid
  pub type : OrderType
  pub delivery_tier : DeliveryTier
  pub batch_id : Option Uuid
  pub status : OrderStatus
  pub delivery_address : Text
  pub delivery_lat : Option ℤ
  pub delivery_lng : Option ℤ
  pub subtotal : Cents
  pub delivery_fee : Cents
  pub emergency_surcharge : Cents
  pub total : Cents
  pub platform_commission : Cents
  pub station_earning : ℤ
  pub rider_earning : Cents
  pub payment_method : Option PaymentMethod
  pub payment_status : PaymentStatus
  pub delivery_otp : Option Text
  pub otp_verified : Bool
  pub proof_of_delivery_url : Option Text
  pub cancellation_reason : Option Text
  pub accepted_at : Option Time
  pub assigned_at : Option Time
  pub arrived_pickup_at : Option Time
  pub picked_up_at : Option Time
  pub arrived_station_at : Option Time
  pub arrived_delivery_at : Option Time
  pub delivered_at : Option Time
  pub completed_at : Option Time
  pub idempotency_key : Option Text

pub record OrderItem : Type 0 where
  pub order_id : Uuid
  pub cylinder_type_id : Uuid
  pub cylinder_type_name : Text
  pub quantity : ℕ
  pub unit_price : Cents
  pub total_price : Cents

pub record OrderStatusHistory : Type 0 where
  pub order_id : Uuid
  pub from_status : Option OrderStatus
  pub to_status : OrderStatus
  pub changed_by : Option Uuid

pub record OrderTrackingEvent : Type 0 where
  pub order_id : Uuid
  pub rider_id : Uuid
  pub latitude : ℤ
  pub longitude : ℤ
  pub distance_to_destination : Option ℕ
  pub eta_seconds : Option ℕ

pub record DeliveryBatch : Type 0 where
  pub rider_id : Option Uuid
  pub status : BatchStatus
  pub centroid_lat : ℤ
  pub centroid_lng : ℤ
  pub order_count : ℕ

-- `filledCount` and `emptyCount` are signed: no column constraint keeps them from zero.
pub record CylinderInventory : Type 0 where
  pub station_id : Uuid
  pub cylinder_type_id : Uuid
  pub filled_count : ℤ
  pub empty_count : ℤ
  pub reserved_count : ℕ
  pub low_stock_threshold : ℕ
  pub exchange_price : Cents
  pub new_price : Cents
  pub refill_price : Cents
  pub emergency_surcharge : Cents
  pub version : ℕ

pub record PricingHistory : Type 0 where
  pub station_id : Uuid
  pub cylinder_type_id : Uuid
  pub exchange_price : Cents
  pub new_price : Cents
  pub refill_price : Cents
  pub emergency_surcharge : Cents
  pub changed_by : Option Uuid

-- `PG-${prefix}-${number}` of a station; the number is padded to three digits.
pub record StationCode : Type 0 where
  pub prefix : Text
  pub number : ℕ

pub record GasStation : Type 0 where
  pub code : StationCode
  pub latitude : Option ℤ
  pub longitude : Option ℤ
  pub status : VerificationStatus
  pub is_active : Bool
  pub stock_status : StockStatus
  pub stock_status_updated_at : Option Time
  pub false_availability_strikes : ℕ
  pub total_revenue : ℤ

pub record Rider : Type 0 where
  pub user_id : Uuid
  pub station_id : Option Uuid
  pub verification_status : VerificationStatus
  pub status : RiderStatus
  pub current_lat : Option ℤ
  pub current_lng : Option ℤ
  pub location_updated_at : Option Time

-- Amounts of a wallet are signed: the request for a withdrawal is not checked for its sign.
pub record RiderWallet : Type 0 where
  pub rider_id : Uuid
  pub available_balance : ℤ
  pub total_earned : ℤ
  pub total_withdrawn : ℤ
  pub version : ℕ

pub record WalletTransaction : Type 0 where
  pub wallet_id : Uuid
  pub rider_id : Uuid
  pub type : WalletTransactionType
  pub reason : WalletTransactionReason
  pub amount : ℤ
  pub balance_after : ℤ
  pub order_id : Option Uuid

pub record PlatformCommission : Type 0 where
  pub station_id : Option Uuid
  pub commission_percent : ℕ
  pub is_active : Bool
