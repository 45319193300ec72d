-- ===== src/Cases.antt =====
-- app/application/cases/user: the eight use cases, with the input DTOs of app/application/dto/user.py.
-- The class attributes are the ports; they are the environment and the world here.
pub mod Inputs
pub mod Rows
pub mod Sent
pub mod Renewed
pub mod Keeps
pub mod Refused
pub mod Register
pub mod VerifyEmail
pub mod Login
pub mod Refresh
pub mod Revoke
pub mod ChangePassword
pub mod RecoverRequest
pub mod Recover
pub mod Confirm
pub mod Recoverable
pub mod Relogin
pub mod FirstPassword
