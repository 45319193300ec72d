-- ===== src/RefreshToken.antt =====
-- app/core/domain/entities/refresh_token.py: a refresh token, its revocation and its rotation.
pub mod Lifecycle
use hexagonal_auth_service.Base.{
  ℕ, ◌+◌, Bool, true, false, not, ltb, is_some, Option, none, some, List, [], ◌∷◌, ◌++◌, Text,
  codes, if◌then◌else◌,
}
use hexagonal_auth_service.Errors.{token_error, refresh_token_reuse}
use hexagonal_auth_service.Exec.{Exec, pure, raise_if, ◌>>=◌, ◌>>◌}
use hexagonal_auth_service.Events.{Event, Payload, refresh_token_created, refresh_token_revoked}
use hexagonal_auth_service.Env.{Env}
use hexagonal_auth_service.Utils.{utc_now, uuid4, generate_token, hash_token}
use hexagonal_auth_service.Live.{Live, outside, this, assign}

pub record RefreshToken : Type 0 where
  pub id : ℕ
  pub user_id : ℕ
  pub token_hash : Text
  pub expires_at : ℕ
  pub created_at : ℕ
  pub revoked_at : Option ℕ
  pub replaced_by_id : Option ℕ
  pub location : Option Text
  pub client_ip : Option Text
  pub user_agent : Option Text
  pub events : List Event
  pub version : Option ℕ

module _ ⦃env : Env⦄ where
  unfoldable pub append_event : Payload → Exec (Live RefreshToken) (Unit {0})
  unfolding utc_now
  append_event p = do
    now ← outside utc_now
    assign (λ t. record t { events = t.events ++ record { timestamp = now; payload = p } ∷ [] })

  unfoldable pub create :
      ℕ → ℕ → ℕ → Option Text → Option Text → Option Text → Exec ℕ (RefreshToken × Text)
  unfolding utc_now uuid4 generate_token hash_token
  create user_id token_length expiry location client_ip user_agent = do
    token_string ← generate_token token_length
    now ← utc_now
    id ← uuid4
    event_time ← utc_now
    let created = refresh_token_created user_id id client_ip user_agent location
    pure (
      record {
        id = id;
        user_id = user_id;
        token_hash = hash_token token_string;
        expires_at = now + expiry;
        created_at = now;
        revoked_at = none;
        replaced_by_id = none;
        location = location;
        client_ip = client_ip;
        user_agent = user_agent;
        events = record { timestamp = event_time; payload = created } ∷ [];
        version = none;
      },
      token_string,
    )

  -- the right operand of `or`, at a token with this `revoked_at`
  unfoldable pub expired_unless : Option ℕ → Exec (Live RefreshToken) Bool
  unfolding utc_now
  expired_unless (some t) = pure true
  expired_unless none = do now ← outside utc_now; token ← this; pure (ltb token.expires_at now)

  unfoldable pub is_revoked_or_expired : Exec (Live RefreshToken) Bool
  unfolding expired_unless
  is_revoked_or_expired = do token ← this; expired_unless token.revoked_at

  -- `self.revoked_at = utc_now()` and the event
  unfoldable pub set_revoked : Exec (Live RefreshToken) (Unit {0})
  unfolding utc_now append_event
  set_revoked = do
    now ← outside utc_now
    assign (λ t. record t { revoked_at = some now })
    token ← this
    append_event (refresh_token_revoked token.user_id token.id)

  unfoldable pub revoke : Exec (Live RefreshToken) (Unit {0})
  unfolding is_revoked_or_expired set_revoked
  revoke = do
    invalid ← is_revoked_or_expired
    raise_if invalid (token_error (codes "Cannot revoke invalid token"))
    set_revoked

  unfoldable pub mark_as_replaced_by : ℕ → Exec (Live RefreshToken) (Unit {0})
  mark_as_replaced_by new_token_id = do
    token ← this
    raise_if (is_some token.replaced_by_id) (token_error (codes "Token is already replaced"))
    assign (λ t. record t { replaced_by_id = some new_token_id })

  -- a UUID is always true, so `if self.replaced_by_id` is the test for `None`
  unfoldable pub use_token : Exec (Live RefreshToken) (Unit {0})
  unfolding is_revoked_or_expired set_revoked
  use_token = do
    token ← this
    raise_if (is_some token.replaced_by_id)
        (refresh_token_reuse (codes "Refresh token replaced by another token"))
    invalid ← is_revoked_or_expired
    raise_if invalid (token_error (codes "Token cannot be used"))
    set_revoked

  unfoldable pub is_usable : Exec (Live RefreshToken) Bool
  unfolding is_revoked_or_expired
  is_usable = do
    invalid ← is_revoked_or_expired
    token ← this
    pure (if invalid then false else not (is_some token.replaced_by_id))

unfoldable pub pull_domain_events : Exec (Live RefreshToken) (List Event)
pull_domain_events = do token ← this; assign (λ t. record t { events = [] }); pure token.events
