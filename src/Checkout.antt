-- ===== src/Checkout.antt =====
-- src/modules/checkout: the transaction in which an order is placed, and the services that run it.
pub mod Db
pub mod Stock
pub mod Pricing
pub mod Save
pub mod Service
pub mod Tests
