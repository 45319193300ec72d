-- ===== src/Tests/Registrations.antt =====
-- A registration and the verification that follows it.
use hexagonal_auth_service.Base.{
  ◌≡◌, refl, true, false, [], ◌∷◌, ◌++◌, codes, text_eq, filter, strip, is_space, Text,
}
use hexagonal_auth_service.Exec.{ok}
use hexagonal_auth_service.Events.{Event, user_created, user_email_verification_requested}
use hexagonal_auth_service.Events.Serializer.{serialize}
use hexagonal_auth_service.Utils.{hash_token}
use hexagonal_auth_service.Schema.{UserRow, OneTimeTokenRow}
use hexagonal_auth_service.World.{World, transaction}
use hexagonal_auth_service.User
use hexagonal_auth_service.OneTimeToken
use hexagonal_auth_service.Services.{request_verification}
use hexagonal_auth_service.Validators.Email.{validate_email, check_format, matches_email}
use hexagonal_auth_service.Validators.Password.{validate_password, validate_hash_password}
use hexagonal_auth_service.Persistence.Users
use hexagonal_auth_service.Persistence.OneTimeTokens
use hexagonal_auth_service.EventBus.RedisQueue.{push}
use hexagonal_auth_service.EventBus.Publisher.{publish}
use hexagonal_auth_service.Cases.Inputs.{RegisterUserInputDto}
use hexagonal_auth_service.Cases.Register
use hexagonal_auth_service.Cases.Register.Grant.{IsRegistration, execute-IsRegistration}
use hexagonal_auth_service.Cases.VerifyEmail
use hexagonal_auth_service.Cases.Confirm.{verified_row, used_row, registration_verifiable}
use hexagonal_auth_service.Tests.Demo.{demo, start}

abbrev pub bob : RegisterUserInputDto
bob = record { email = codes "Bob@example.com"; password = codes "another-word" }

abbrev pub bob_row : UserRow
bob_row = record {
  id = 110;
  email = codes "bob@example.com";
  is_email_verified = false;
  password_hash = 35 ∷ codes "another-word";
  active = true;
  created_at = 12;
  version = 1;
}

-- the string of the token that bob is sent
abbrev pub sent : Text
sent = 15 ∷ 32 ∷ []

abbrev pub bob_token : OneTimeTokenRow
bob_token = record {
  id = 116;
  token_hash = 36 ∷ sent;
  user_id = 110;
  expires_at = 734;
  version = 1;
  used = false;
  purpose = codes "verify_email";
}

abbrev pub created : Event
created = record { timestamp = 13; payload = user_created 110 (codes "bob@example.com") }

abbrev pub requested : Event
requested = record {
  timestamp = 17;
  payload = user_email_verification_requested 110 (codes "bob@example.com") sent;
}

abbrev pub joined : World
joined = record {
  calls = 18;
  db = record start.db {
    users = start.db.users ++ bob_row ∷ [];
    one_time_tokens = start.db.one_time_tokens ++ bob_token ∷ [];
  };
  audit = serialize created ∷ [];
  notifications = requested ∷ [];
}

registers : Register.execute bob start ≡ (ok tt, joined)
unfolding Register.execute Register.register_user Register.or_create Register.is_verified
    transaction Users.get_by_email Users.save Users.domain2orm OneTimeTokens.save
    OneTimeTokens.domain2orm OneTimeTokens.purpose_value User.create User.request_email_verification
    User.pull_domain_events OneTimeToken.create request_verification validate_email check_format
    matches_email validate_password validate_hash_password publish push text_eq hash_token codes
    strip is_space
registers = refl

not_stored : filter (λ (r : UserRow). text_eq r.email bob.email) start.db.users ≡ []
unfolding text_eq codes
not_stored = refl

execute-IsRegistration_example : IsRegistration bob start joined
execute-IsRegistration_example = execute-IsRegistration bob start not_stored registers

pub address_valid : validate_email bob.email ≡ ok (codes "bob@example.com")
unfolding validate_email check_format matches_email strip is_space codes
address_valid = refl

pub password_hashed : (validate_hash_password bob.password 11).0 ≡ ok (35 ∷ codes "another-word")
unfolding validate_password validate_hash_password strip is_space codes
password_hashed = refl

pub sent_hash : bob_token.token_hash ≡ hash_token sent
unfolding hash_token
sent_hash = refl

abbrev pub registration : IsRegistration bob start joined
registration = record {
  email = codes "bob@example.com";
  hash = 35 ∷ codes "another-word";
  user = bob_row;
  token = bob_token;
  string = sent;
  created_time = 13;
  requested_time = 17;
  valid = address_valid;
  hashed = password_hashed;
  tables = refl;
  address = (refl, refl);
  pending = (refl, refl);
  owned = refl;
  token_hash = sent_hash;
  usable = (refl, refl);
  logged = refl;
  notified = refl;
}

admitted_users :
    demo.admits (record joined.db { users = start.db.users ++ verified_row bob_row ∷ [] }) ≡ true
unfolding text_eq codes
admitted_users = refl

admitted_tokens :
    demo.admits (record joined.db {
      users = start.db.users ++ verified_row bob_row ∷ [];
      one_time_tokens = start.db.one_time_tokens ++ used_row bob_token ∷ [];
    })
    ≡ true
unfolding text_eq codes
admitted_tokens = refl

registration_verifiable_example :
    ((VerifyEmail.execute (record { one_time_token = sent }) joined).0 ≡ ok tt)
    × ((VerifyEmail.execute (record { one_time_token = sent }) joined).1.db ≡ record joined.db {
      users = start.db.users ++ verified_row bob_row ∷ [];
      one_time_tokens = start.db.one_time_tokens ++ used_row bob_token ∷ [];
    })
registration_verifiable_example =
    registration_verifiable bob start joined joined registration refl refl refl refl refl
      admitted_users admitted_tokens
