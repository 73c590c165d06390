-- ===== src/Auth.antt =====
-- src/modules/auth: the tokens of a session.
pub mod Claims
pub mod RefreshTokens
pub mod TokenService
pub mod TwoFactor
mod Tests
