-- ===== src/Entities.antt =====
-- The rows of the tables (backend/src/*/entities), without their primary keys, which the tables
-- hold. Money is in cents (decimal(15, 2)), a percentage in hundredths (decimal(5, 2)), a
-- coordinate in units of 10^-8 degrees (decimal(10, 8)), a time in milliseconds. Texts that the
-- services only store and compare are numbered. Descriptions for people (notes, metadata, names of
-- files and persons) that no operation reads are left out.
pub mod Units
pub mod Trade
pub mod Money
pub mod Accounts
pub use powergas.Entities.Units.{Text, Cents, Time}
pub use powergas.Entities.Trade.{
  OrderNumber, Order, OrderItem, OrderStatusHistory, OrderTrackingEvent, DeliveryBatch,
  CylinderInventory, PricingHistory, StationCode, GasStation, Rider, RiderWallet, WalletTransaction,
  PlatformCommission,
}
pub use powergas.Entities.Money.{
  Reference, ProviderName, Payment, PaymentWebhook, OrderChangeRequest, pay, ps, momo, paystack,
  unknown,
}
pub use powergas.Entities.Accounts.{
  User, RefreshToken, OtpPurpose, OtpRecord, GasStationStaff, Review, Dispute, Customer, Address,
  CylinderType, Cylinder, Notification, SystemSetting, phone_verification, other,
}
