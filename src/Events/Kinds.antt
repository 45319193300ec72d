-- ===== src/Events/Kinds.antt =====
-- The three families of events, `DomainEvent`, `NotificationEvent` and `ApplicationEvent`.
use hexagonal_auth_service.Base.{Bool, true, false}
use hexagonal_auth_service.Events.{
  Payload, Event, user_email_verification_requested, user_password_recover_requested,
  refresh_token_reuse_detected, suspicious_refresh_token_revocation,
}

pub data Kind : Type 0 where
  domain notification application : Kind

unfoldable pub kind : Payload → Kind
kind (user_email_verification_requested _ _ _) = notification
kind (user_password_recover_requested _ _ _) = notification
kind (refresh_token_reuse_detected _ _ _ _ _) = application
kind (suspicious_refresh_token_revocation _ _ _ _ _) = application
kind _ = domain

-- `isinstance(event, NotificationEvent)`
unfoldable pub is_notification : Event → Bool
unfolding kind
is_notification e = elim (kind e.payload) [ notification ↦ true | _ ↦ false ]

-- `isinstance(event, DomainEvent)`
unfoldable pub is_domain : Event → Bool
unfolding kind
is_domain e = elim (kind e.payload) [ domain ↦ true | _ ↦ false ]
