-- ===== src/Validators.antt =====
-- app/core/domain/validators
pub mod Email
pub mod Password
