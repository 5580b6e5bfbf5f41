-- ===== src/Common.antt =====
-- src/goblin/common: fundamental types, errors, and the operator-facing configuration.
pub mod Types
pub mod Errors
pub mod Config
