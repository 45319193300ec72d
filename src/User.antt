-- ===== src/User.antt =====
-- app/core/domain/entities/user.py: the user aggregate and its methods.
pub mod Methods
pub mod Passwords
use hexagonal_auth_service.Base.{
  ℕ, Bool, true, false, not, Option, none, List, [], ◌∷◌, ◌++◌, Text, codes, text_eq,
}
use hexagonal_auth_service.Errors.{user_error}
use hexagonal_auth_service.Exec.{Exec, pure, lift, raise_if, ◌>>=◌, ◌>>◌}
use hexagonal_auth_service.Events.{
  Event, Payload, user_created, user_activated, user_deactivated, user_email_verified,
  user_password_changed, user_password_recovered, user_email_verification_requested,
  user_password_recover_requested,
}
use hexagonal_auth_service.Env.{Env}
use hexagonal_auth_service.Utils
use hexagonal_auth_service.Utils.{utc_now, uuid4}
use hexagonal_auth_service.Validators.Email.{validate_email}
use hexagonal_auth_service.Validators.Password.{validate_hash_password}
use hexagonal_auth_service.Live.{Live, outside, this, assign}

-- `version` is the attribute "__version" that the repository sets; a new object has none.
pub record User : Type 0 where
  pub id : ℕ
  pub email : Text
  pub password_hash : Text
  pub active : Bool
  pub is_email_verified : Bool
  pub created_at : ℕ
  pub events : List Event
  pub version : Option ℕ

module _ ⦃env : Env⦄ where
  -- `self._events.append(EventClass(...))`; the event takes its own timestamp
  unfoldable pub append_event : Payload → Exec (Live User) (Unit {0})
  unfolding utc_now
  append_event p = do
    now ← outside utc_now
    assign (λ u. record u { events = u.events ++ record { timestamp = now; payload = p } ∷ [] })

  unfoldable pub create : Text → Text → Exec ℕ User
  unfolding uuid4 validate_email validate_hash_password utc_now
  create email password = do
    id ← uuid4
    valid_email ← lift (validate_email email)
    password_hash ← validate_hash_password password
    created_at ← utc_now
    event_time ← utc_now
    pure (record {
      id = id;
      email = valid_email;
      password_hash = password_hash;
      active = true;
      is_email_verified = false;
      created_at = created_at;
      events = record { timestamp = event_time; payload = user_created id valid_email } ∷ [];
      version = none;
    })

  unfoldable pub request_email_verification : Text → Exec (Live User) (Unit {0})
  unfolding append_event
  request_email_verification token_string = do
    user ← this
    raise_if user.is_email_verified (user_error (codes "Email already verified"))
    append_event (user_email_verification_requested user.id user.email token_string)

  unfoldable pub request_password_recover : Text → Exec (Live User) (Unit {0})
  unfolding append_event
  request_password_recover token_string = do
    user ← this
    raise_if (not user.is_email_verified) (user_error (codes "Email is not verified"))
    append_event (user_password_recover_requested user.id user.email token_string)

  unfoldable pub verify_email : Exec (Live User) (Unit {0})
  unfolding append_event
  verify_email = do
    user ← this
    raise_if user.is_email_verified (user_error (codes "Email already verified"))
    assign (λ u. record u { is_email_verified = true })
    append_event (user_email_verified user.id user.email)

  unfoldable pub assert_can_login : Text → Exec (Live User) (Unit {0})
  assert_can_login password = do
    user ← this
    raise_if (not user.active) (user_error (codes "User is deactivated"))
    raise_if (not user.is_email_verified) (user_error (codes "Email is not verified"))
    matches ← outside (Utils.verify_password password user.password_hash)
    raise_if (not matches) (user_error (codes "Invalid password"))

  unfoldable pub verify_password : Text → Exec (Live User) Bool
  verify_password password = do
    user ← this
    outside (Utils.verify_password password user.password_hash)

  unfoldable pub change_password : Text → Text → Exec (Live User) (Unit {0})
  unfolding append_event
  change_password old_password new_password = do
    user ← this
    matches ← outside (Utils.verify_password old_password user.password_hash)
    raise_if (not matches) (user_error (codes "Wrong old password"))
    raise_if (text_eq old_password new_password)
        (user_error (codes "New password cannot be the same as old"))
    new_hash ← outside (validate_hash_password new_password)
    assign (λ u. record u { password_hash = new_hash })
    append_event (user_password_changed user.id)

  unfoldable pub recover_password : Text → Exec (Live User) (Unit {0})
  unfolding append_event
  recover_password new_password = do
    new_hash ← outside (validate_hash_password new_password)
    assign (λ u. record u { password_hash = new_hash })
    user ← this
    append_event (user_password_recovered user.id)

  unfoldable pub activate : Exec (Live User) (Unit {0})
  unfolding append_event
  activate = do
    user ← this
    raise_if user.active (user_error (codes "User account is already active"))
    assign (λ u. record u { active = true })
    append_event (user_activated user.id)

  unfoldable pub deactivate : Exec (Live User) (Unit {0})
  unfolding append_event
  deactivate = do
    user ← this
    raise_if (not user.active) (user_error (codes "User account is already deactivated"))
    assign (λ u. record u { active = false })
    append_event (user_deactivated user.id)

unfoldable pub pull_domain_events : Exec (Live User) (List Event)
pull_domain_events = do user ← this; assign (λ u. record u { events = [] }); pure user.events
