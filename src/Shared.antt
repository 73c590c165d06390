-- ===== src/Shared.antt =====
-- src/shared: the errors, value objects, events and aggregate root that the domain modules use.
pub mod Errors
pub mod Number
pub mod Text
pub mod ValueObjects
pub mod Money
pub mod Events
pub mod Aggregate
pub mod Tests
