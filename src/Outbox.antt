-- ===== src/Outbox.antt =====
-- src/core/outbox and src/shared/domain/event-bus: how the events of the outbox reach their
-- handlers.
pub mod Bus
pub mod Json
pub mod Schema
pub mod Table
pub mod Relay
pub mod Maintenance
pub mod Projections
mod Tests
