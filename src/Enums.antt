-- ===== src/Enums.antt =====
-- backend/src/common/enums/index.ts: the enumerations that the services branch on.
use powergas.Base.{ℕ, ◌≡◌, Bool, true, false, ◌==◌, ◌↔◌, arith}

pub data UserRole : Type 0 where
  customer rider station_staff station_manager admin super_admin : UserRole

pub data OrderStatus : Type 0 where
  pending accepted inventory_reserved preparing : OrderStatus
  rider_assigned rider_en_route_pickup rider_arrived_pickup cylinder_picked_up : OrderStatus
  rider_en_route_station at_station rider_en_route_delivery rider_arrived_delivery : OrderStatus
  delivered customer_confirmed completed cancelled refunded : OrderStatus

pub data OrderType : Type 0 where
  cylinder_exchange new_cylinder_purchase refill_service : OrderType

pub data DeliveryTier : Type 0 where
  standard express : DeliveryTier

pub data BatchStatus : Type 0 where
  pending assigned completed : BatchStatus

pub data PaymentStatus : Type 0 where
  pending processing completed failed refunded partially_refunded cancelled : PaymentStatus

pub data PaymentMethod : Type 0 where
  mobile_money card bank_transfer wallet : PaymentMethod

pub data RiderStatus : Type 0 where
  available busy offline suspended : RiderStatus

pub data WalletTransactionType : Type 0 where
  credit debit : WalletTransactionType

pub data WalletTransactionReason : Type 0 where
  delivery_earning withdrawal bonus adjustment refund : WalletTransactionReason

pub data VerificationStatus : Type 0 where
  pending verified rejected suspended : VerificationStatus

pub data StockStatus : Type 0 where
  available shortage out_of_stock : StockStatus

pub data ChangeRequestStatus : Type 0 where
  pending approved rejected : ChangeRequestStatus

pub data DisputeStatus : Type 0 where
  opened under_review resolved closed escalated : DisputeStatus

pub data CylinderStatus : Type 0 where
  filled empty reserved damaged lost retired in_transit : CylinderStatus
  customer_owned station_owned under_inspection : CylinderStatus

pub data NotificationType : Type 0 where
  order_created order_accepted order_assigned rider_en_route : NotificationType
  order_delivered order_completed order_cancelled payment_success : NotificationType
  payment_failed refund_issued low_inventory account_verified : NotificationType
  otp_sent dispute_opened dispute_resolved change_request_raised : NotificationType
  change_request_approved change_request_rejected wallet_credited withdrawal_processed :
      NotificationType
  general : NotificationType

-- The position of a status in the enumeration, by which two statuses are compared.
abbrev pub ordinal : OrderStatus → ℕ
ordinal OrderStatus.pending = 0
ordinal OrderStatus.accepted = 1
ordinal OrderStatus.inventory_reserved = 2
ordinal OrderStatus.preparing = 3
ordinal OrderStatus.rider_assigned = 4
ordinal OrderStatus.rider_en_route_pickup = 5
ordinal OrderStatus.rider_arrived_pickup = 6
ordinal OrderStatus.cylinder_picked_up = 7
ordinal OrderStatus.rider_en_route_station = 8
ordinal OrderStatus.at_station = 9
ordinal OrderStatus.rider_en_route_delivery = 10
ordinal OrderStatus.rider_arrived_delivery = 11
ordinal OrderStatus.delivered = 12
ordinal OrderStatus.customer_confirmed = 13
ordinal OrderStatus.completed = 14
ordinal OrderStatus.cancelled = 15
ordinal OrderStatus.refunded = 16

-- `a === b` on order statuses.
abbrev pub status_eq : OrderStatus → OrderStatus → Bool
status_eq a b = ordinal a == ordinal b

abbrev role_code : UserRole → ℕ
role_code UserRole.customer = 0
role_code UserRole.rider = 1
role_code UserRole.station_staff = 2
role_code UserRole.station_manager = 3
role_code UserRole.admin = 4
role_code UserRole.super_admin = 5

-- `a === b` on roles, and so on.
abbrev pub role_eq : UserRole → UserRole → Bool
role_eq a b = role_code a == role_code b

abbrev tier_code : DeliveryTier → ℕ
tier_code standard = 0
tier_code express = 1

abbrev pub tier_eq : DeliveryTier → DeliveryTier → Bool
tier_eq a b = tier_code a == tier_code b

abbrev rider_status_code : RiderStatus → ℕ
rider_status_code RiderStatus.available = 0
rider_status_code RiderStatus.busy = 1
rider_status_code RiderStatus.offline = 2
rider_status_code RiderStatus.suspended = 3

abbrev pub rider_status_eq : RiderStatus → RiderStatus → Bool
rider_status_eq a b = rider_status_code a == rider_status_code b

abbrev verification_code : VerificationStatus → ℕ
verification_code VerificationStatus.pending = 0
verification_code VerificationStatus.verified = 1
verification_code VerificationStatus.rejected = 2
verification_code VerificationStatus.suspended = 3

abbrev pub verification_eq : VerificationStatus → VerificationStatus → Bool
verification_eq a b = verification_code a == verification_code b

abbrev batch_code : BatchStatus → ℕ
batch_code BatchStatus.pending = 0
batch_code BatchStatus.assigned = 1
batch_code BatchStatus.completed = 2

abbrev pub batch_status_eq : BatchStatus → BatchStatus → Bool
batch_status_eq a b = batch_code a == batch_code b

-- Statuses with one position are one status.
pub status_eq_iff : (a b : OrderStatus) → (status_eq a b ≡ Bool.true) ↔ (a ≡ b)
status_eq_iff a b = ground arith

abbrev payment_code : PaymentStatus → ℕ
payment_code PaymentStatus.pending = 0
payment_code PaymentStatus.processing = 1
payment_code PaymentStatus.completed = 2
payment_code PaymentStatus.failed = 3
payment_code PaymentStatus.refunded = 4
payment_code PaymentStatus.partially_refunded = 5
payment_code PaymentStatus.cancelled = 6

abbrev pub payment_status_eq : PaymentStatus → PaymentStatus → Bool
payment_status_eq a b = payment_code a == payment_code b

abbrev method_code : PaymentMethod → ℕ
method_code PaymentMethod.mobile_money = 0
method_code PaymentMethod.card = 1
method_code PaymentMethod.bank_transfer = 2
method_code PaymentMethod.wallet = 3

abbrev pub method_eq : PaymentMethod → PaymentMethod → Bool
method_eq a b = method_code a == method_code b

abbrev pub is_pending_request : ChangeRequestStatus → Bool
is_pending_request ChangeRequestStatus.pending = true
is_pending_request _ = false
