-- ===== src/Composition.antt =====
-- How the service is put together: the settings, the providers of the adapters, and the factories of
-- the use cases.
pub mod Settings
pub mod Nexus
pub mod UseCases
