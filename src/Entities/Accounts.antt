-- ===== src/Entities/Accounts.antt =====
-- The rows around accounts: users, tokens and codes, staff, reviews, disputes, customers; cylinders,
-- notifications and settings.
use powergas.Base.{ℕ, Bool, Option}
use powergas.Enums.{UserRole, DisputeStatus, CylinderStatus, NotificationType, VerificationStatus}
use powergas.Table.{Uuid}
use powergas.Entities.Units.{Text, Cents, Time}

-- `firstName`, `lastName` and the picture are left out.
pub record User : Type 0 where
  pub email : Text
  pub phone : Text
  pub password : Text
  pub role : UserRole
  pub status : VerificationStatus
  pub email_verified : Bool
  pub phone_verified : Bool
  pub fcm_token : Option Text
  pub failed_login_attempts : ℕ
  pub locked_until : Option Time
  pub last_login_at : Option Time
  pub last_login_ip : Option Text

pub record RefreshToken : Type 0 where
  pub user_id : Uuid
  pub token : Text
  pub device_id : Option Text
  pub user_agent : Option Text
  pub ip_address : Option Text
  pub expires_at : Time
  pub is_revoked : Bool
  pub revoked_at : Option Time

-- The purpose of a one-time code is a text, of which one is told apart.
pub data OtpPurpose : Type 0 where
  phone_verification : OtpPurpose
  other : Text → OtpPurpose

pub record OtpRecord : Type 0 where
  pub user_id : Option Uuid
  pub phone : Text
  pub code : Text
  pub purpose : OtpPurpose
  pub expires_at : Time
  pub is_used : Bool
  pub attempt_count : ℕ

pub record GasStationStaff : Type 0 where
  pub user_id : Uuid
  pub station_id : Uuid
  pub role : UserRole
  pub is_active : Bool

pub record Review : Type 0 where
  pub order_id : Uuid
  pub reviewer_id : Uuid
  pub station_id : Option Uuid
  pub rider_id : Option Uuid
  pub rating : ℕ

pub record Dispute : Type 0 where
  pub order_id : Uuid
  pub customer_id : Uuid
  pub status : DisputeStatus
  pub assigned_admin_id : Option Uuid
  pub resolution : Option Text
  pub refund_amount : Option Cents
  pub resolved_at : Option Time

pub record Customer : Type 0 where
  pub user_id : Uuid

pub record Address : Type 0 where
  pub user_id : Uuid
  pub full_address : Text
  pub is_default : Bool

pub record CylinderType : Type 0 where
  pub name : Text
  pub weight_kg : ℕ
  pub is_active : Bool

pub record Cylinder : Type 0 where
  pub serial_number : Text
  pub qr_code : Option Text
  pub cylinder_type_id : Uuid
  pub station_id : Option Uuid
  pub status : CylinderStatus

pub record Notification : Type 0 where
  pub user_id : Uuid
  pub type : NotificationType
  pub title : Text
  pub body : Text
  pub is_read : Bool
  pub read_at : Option Time
  pub push_sent : Bool
  pub sms_sent : Bool
  pub email_sent : Bool

pub record SystemSetting : Type 0 where
  pub key : Text
  pub value : Text
  pub category : Text
