-- ===== src/Entities/Money.antt =====
-- The rows of payments and change requests: backend/src/payments/entities and
-- backend/src/change-requests/entities.
use powergas.Base.{ℕ, Bool, Option}
use powergas.Enums.{PaymentStatus, PaymentMethod, ChangeRequestStatus}
use powergas.Table.{Uuid}
use powergas.Entities.Units.{Text, Cents, Time}

-- `PAY-${uuid}` of a payment, and what the providers make of it: `ps_${…}` and `momo_${…}`.
pub data Reference : Type 0 where
  pay : Uuid → Reference
  ps momo : Reference → Reference

pub data ProviderName : Type 0 where
  paystack mobile_money : ProviderName
  unknown : Text → ProviderName

pub record Payment : Type 0 where
  pub order_id : Uuid
  pub customer_id : Uuid
  pub reference : Reference
  pub idempotency_key : Option Text
  pub amount : Cents
  pub payment_method : PaymentMethod
  pub status : PaymentStatus
  pub provider : Option ProviderName
  pub provider_reference : Option Reference
  pub paid_at : Option Time
  pub retry_count : ℕ

pub record PaymentWebhook : Type 0 where
  pub provider : ProviderName
  pub event_type : Option Text
  pub is_processed : Bool
  pub processed_at : Option Time
  pub failed : Bool

pub record OrderChangeRequest : Type 0 where
  pub order_id : Uuid
  pub station_id : Uuid
  pub raised_by : Uuid
  pub photo_url : Text
  pub additional_amount : Cents
  pub status : ChangeRequestStatus
  pub payment_reference : Option Reference
  pub responded_at : Option Time
