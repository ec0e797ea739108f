-- ===== src/Orders.antt =====
-- backend/src/orders: the life of an order, from its creation to its settlement.
pub mod Lifecycle
pub mod Pricing
pub mod Store
pub mod Status
pub mod Reservation
pub mod Create
pub mod Cancel
pub mod Confirm
pub mod Assign
pub mod Accept
