-- ===== src/Orders.antt =====
-- src/modules/orders: the order aggregate.
pub mod Order
pub mod Lifecycle
mod Tests
