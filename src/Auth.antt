-- ===== src/Auth.antt =====
-- internal/auth: who somebody is, and what they may try.
pub mod Limiter
pub mod Service
pub mod Local
