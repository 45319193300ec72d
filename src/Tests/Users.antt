-- ===== src/Tests/Users.antt =====
-- The user aggregate at concrete users.
use hexagonal_auth_service.Base.{
  ◌≡◌, ◌≢◌, refl, sym, ◌∙◌, true, false, none, some, [], ◌∷◌, codes, text_eq, text_eq_iff, ◌⊎◌,
  strip, is_space, arith, Text,
}
use hexagonal_auth_service.Errors.{user_error, value_error}
use hexagonal_auth_service.Exec.{ok, err}
use hexagonal_auth_service.Events.{user_created}
use hexagonal_auth_service.Live.{Live}
use hexagonal_auth_service.Utils
use hexagonal_auth_service.Validators.Password.{validate_password, validate_hash_password}
use hexagonal_auth_service.Validators.Email.{validate_email}
use hexagonal_auth_service.User.{User}
use hexagonal_auth_service.User
use hexagonal_auth_service.User.Passwords.{IsHashing, padded_password_refused}
use hexagonal_auth_service.Tests.Demo.{demo}

-- an active, verified user with the password "secret-word"
abbrev ann : Live User
ann = record {
  self = record {
    id = 1;
    email = codes "ann@example.com";
    password_hash = 35 ∷ codes "secret-word";
    active = true;
    is_email_verified = true;
    created_at = 0;
    events = [];
    version = some 1;
  };
  calls = 20;
}

abbrev changed : Live User
changed = (User.change_password (codes "secret-word") (codes "other-word") ann).1

change_ok : (User.change_password (codes "secret-word") (codes "other-word") ann).0 ≡ ok tt
unfolding User.change_password Utils.verify_password validate_hash_password validate_password
    text_eq codes strip is_space
change_ok = refl

abbrev padded : Text
padded = codes " secret-word"

stripped : strip padded ≡ codes "secret-word"
unfolding strip codes is_space
stripped = refl

another : codes "secret-word" ≢ padded
unfolding codes
another = ground arith

pub demo-IsHashing : IsHashing
unfolding text_eq
demo-IsHashing = record { check_hash = λ p q salt h e k. ground (arith, text_eq_iff p q) }

abbrev registered : User
registered = record {
  id = 100;
  email = codes "ann@example.com";
  password_hash = 35 ∷ codes "secret-word";
  active = true;
  is_email_verified = false;
  created_at = 2;
  events = record { timestamp = 3; payload = user_created 100 (codes "ann@example.com") } ∷ [];
  version = none;
}

registers : User.create (codes "ann@example.com") padded 0 ≡ (ok registered, 4)
unfolding User.create validate_email validate_hash_password validate_password strip codes is_space
registers = refl

padded_password_refused_example :
    let login =
      User.assert_can_login padded
        (record { self = record registered { is_email_verified = true }; calls = 9 }) in
    ((demo.checkpw padded registered.password_hash ≡ some false)
      × (login.0 ≡ err (user_error (codes "Invalid password"))))
    ⊎ ((demo.checkpw padded registered.password_hash ≡ none) × (login.0 ≡ err value_error))
padded_password_refused_example =
    padded_password_refused demo-IsHashing (codes "ann@example.com") padded 0 registered 4 9
      registers (λ e. another (sym stripped ∙ e))
