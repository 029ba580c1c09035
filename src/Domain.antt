-- ===== src/Domain.antt =====
-- The records of the platform (internal/domain).
pub mod Invocation
pub mod Function
mod Tests
