-- ===== src/Users.antt =====
-- src/modules/users: the aggregate of accounts.
pub mod User
mod Tests
