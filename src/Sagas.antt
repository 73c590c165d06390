-- ===== src/Sagas.antt =====
-- Sagas: src/shared/application/saga/saga-state.ts and the sagas on top of it.
pub mod Step
pub mod Cancellation
pub mod Checkout
