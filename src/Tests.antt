-- ===== src/Tests.antt =====
-- Runs at concrete inputs.
mod Requests
mod Demo
mod Refresh
mod Users
mod Tokens
mod Routes
mod Texts
mod Queues
mod Migrations
mod Logins
mod Access
mod Verifications
mod Recoveries
mod Changes
mod Clients
mod Pages
mod Wirings
mod Constraints
mod Registrations
mod Takeovers
