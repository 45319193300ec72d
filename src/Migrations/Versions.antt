-- ===== src/Migrations/Versions.antt =====
-- The scripts of migrations/versions, in the order of their file names.
pub mod RestructureTables
pub mod RenamePasswordResetTokens
pub mod AddOnDeleteCascade
pub mod AddVersions
pub mod InitialTables
pub mod RemoveUsernameField
