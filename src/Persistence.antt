-- ===== src/Persistence.antt =====
-- app/adapters/outbound/persistence/sqlalchemy/repositories
pub mod Sql
pub mod Tables
pub mod Keeps
pub mod Locking
pub mod Users
pub mod OneTimeTokens
pub mod RefreshTokens
pub mod Lookups
pub mod Versioned
pub mod RoundTrip
pub mod Race
