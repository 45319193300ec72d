-- ===== src/Events.antt =====
-- The events: app/core/domain/events and app/application/events.
pub mod Kinds
pub mod Serializer
use hexagonal_auth_service.Base.{ℕ, Option, Text, Bool, true, false}

-- What is specific to each event class.
pub data Payload : Type 0 where
  user_created : ℕ → Text → Payload
  user_activated user_deactivated : ℕ → Payload
  user_email_verified : ℕ → Text → Payload
  user_password_changed user_password_recovered : ℕ → Payload
  user_email_verification_requested : ℕ → Text → Text → Payload
  user_password_recover_requested : ℕ → Text → Text → Payload
  refresh_token_created : ℕ → ℕ → Option Text → Option Text → Option Text → Payload
  refresh_token_revoked : ℕ → ℕ → Payload
  refresh_token_reuse_detected : ℕ → ℕ → Option Text → Option Text → Option Text → Payload
  suspicious_refresh_token_revocation : ℕ → ℕ → Option Text → Option Text → Option Text → Payload

-- `BaseEvent`: the time at which the object was made, and the class's fields
pub record Event : Type 0 where
  pub timestamp : ℕ
  pub payload : Payload
