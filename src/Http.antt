-- ===== src/Http.antt =====
-- app/adapters/inbound/http
pub mod Auth
pub mod Client
pub mod Endpoints
pub mod EventsPage
pub mod Atomic
pub mod Registration
