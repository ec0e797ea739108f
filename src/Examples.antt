-- ===== src/Examples.antt =====
-- Concrete runs: a small state, and each property at it.
pub mod Data
pub mod Placing
pub mod Moving
pub mod Sharing
pub mod Ending
pub mod Money
pub mod Paying
pub mod Signing
pub mod Driving
pub mod Serving
pub mod Calling
pub mod Browsing
