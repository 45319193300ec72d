-- ===== src/Tests/Takeovers.antt =====
-- A second registration of bob's address, its verification, a login, and a request for a recovery.
use hexagonal_auth_service.Base.{◌≡◌, refl, none, [], ◌∷◌, codes, text_eq, strip, true, false}
use hexagonal_auth_service.Exec.{ok}
use hexagonal_auth_service.Events.{user_password_recover_requested}
use hexagonal_auth_service.Utils
use hexagonal_auth_service.Utils.{hash_token}
use hexagonal_auth_service.Schema.{OneTimeTokenRow}
use hexagonal_auth_service.World.{World, transaction}
use hexagonal_auth_service.User
use hexagonal_auth_service.OneTimeToken
use hexagonal_auth_service.RefreshToken
use hexagonal_auth_service.Services.{request_verification, request_password_recover}
use hexagonal_auth_service.AccessToken.{issue}
use hexagonal_auth_service.Persistence.Users
use hexagonal_auth_service.Persistence.OneTimeTokens
use hexagonal_auth_service.Persistence.RefreshTokens
use hexagonal_auth_service.EventBus.Publisher.{publish}
use hexagonal_auth_service.Cases.Inputs.{
  RegisterUserInputDto, VerifyEmailInputDto, LoginUserInputDto, TokenPairDto,
  PasswordRecoverRequestInputDto,
}
use hexagonal_auth_service.Cases.Rows.{hits}
use hexagonal_auth_service.Cases.Sent.{IsSent, addressed}
use hexagonal_auth_service.Cases.Register
use hexagonal_auth_service.Cases.VerifyEmail
use hexagonal_auth_service.Cases.VerifyEmail.Grant.{IsVerification, execute-IsVerification}
use hexagonal_auth_service.Cases.Login
use hexagonal_auth_service.Cases.RecoverRequest
use hexagonal_auth_service.Cases.RecoverRequest.Grant.{execute-IsRecoverRequest}
use hexagonal_auth_service.Cases.FirstPassword.{first_password}
use hexagonal_auth_service.Tests.Users.{demo-IsHashing}
use hexagonal_auth_service.Tests.Registrations.{bob, bob_row, joined, registration}
use hexagonal_auth_service.Tests.Demo.{demo, start}

-- the owner of the address, after somebody else
abbrev owner : RegisterUserInputDto
owner = record { email = codes "bob@example.com"; password = codes "owner-word" }

abbrev twice : World
twice = (Register.execute owner joined).1

stored : addressed owner.email joined ≡ bob_row ∷ []
unfolding text_eq codes
stored = refl

registers_again : Register.execute owner joined ≡ (ok tt, twice)
unfolding Register.execute Register.register_user Register.or_create Register.is_verified
    transaction Users.get_by_email Users.save OneTimeTokens.save User.request_email_verification
    User.pull_domain_events OneTimeToken.create request_verification publish text_eq hash_token
    codes
registers_again = refl

abbrev mailed : OneTimeTokenRow
mailed = record {
  id = 120;
  token_hash = 36 ∷ 19 ∷ 32 ∷ [];
  user_id = 110;
  expires_at = 738;
  version = 1;
  used = false;
  purpose = codes "verify_email";
}

abbrev answer : VerifyEmailInputDto
answer = (record { one_time_token = 19 ∷ 32 ∷ [] })

abbrev confirmed : World
confirmed = (VerifyEmail.execute answer twice).1

held : hits (19 ∷ 32 ∷ []) twice ≡ mailed ∷ []
unfolding Register.execute Register.register_user Register.or_create Register.is_verified
    transaction Users.get_by_email Users.save OneTimeTokens.save User.request_email_verification
    User.pull_domain_events OneTimeToken.create request_verification publish text_eq hash_token
    codes OneTimeTokens.domain2orm OneTimeTokens.purpose_value
held = refl

verifies : VerifyEmail.execute answer twice ≡ (ok tt, confirmed)
unfolding Register.execute Register.register_user Register.or_create Register.is_verified
    transaction Users.get_by_email Users.save OneTimeTokens.save User.request_email_verification
    User.pull_domain_events OneTimeToken.create request_verification publish text_eq hash_token
    codes VerifyEmail.execute VerifyEmail.verify_user OneTimeTokens.get_by_string Users.get_by_id
    OneTimeToken.use_token User.verify_email
verifies = refl

execute-IsVerification_example : IsVerification answer twice confirmed
execute-IsVerification_example = execute-IsVerification answer twice verifies

abbrev credentials : LoginUserInputDto
credentials = record {
  email = codes "bob@example.com";
  password = codes "another-word";
  client_ip = none;
  user_agent = none;
  location = none;
}

abbrev pair : TokenPairDto
pair = (record { access_token = 24 ∷ 39 ∷ 110 ∷ []; refresh_token = 25 ∷ 32 ∷ [] })

logs_in : Login.execute credentials confirmed ≡ (ok pair, (Login.execute credentials confirmed).1)
unfolding Register.execute Register.register_user Register.or_create Register.is_verified
    transaction Users.get_by_email Users.save OneTimeTokens.save User.request_email_verification
    User.pull_domain_events OneTimeToken.create request_verification publish text_eq hash_token
    codes VerifyEmail.execute VerifyEmail.verify_user OneTimeTokens.get_by_string Users.get_by_id
    OneTimeToken.use_token User.verify_email Login.execute Login.login_user User.assert_can_login
    Utils.verify_password issue RefreshToken.create RefreshToken.pull_domain_events
    RefreshTokens.save
logs_in = refl

first_password_example : codes "another-word" ≡ strip (codes "another-word")
first_password_example =
    first_password demo-IsHashing bob owner answer credentials start joined twice confirmed mailed
      registration stored registers_again held refl verifies refl logs_in

abbrev forgot : PasswordRecoverRequestInputDto
forgot = record { email = codes "bob@example.com" }

abbrev asked : World
asked = (RecoverRequest.execute forgot confirmed).1

requests : RecoverRequest.execute forgot confirmed ≡ (ok tt, asked)
unfolding Register.execute Register.register_user Register.or_create Register.is_verified
    transaction Users.get_by_email Users.save OneTimeTokens.save User.request_email_verification
    User.pull_domain_events OneTimeToken.create request_verification publish text_eq hash_token
    codes VerifyEmail.execute VerifyEmail.verify_user OneTimeTokens.get_by_string Users.get_by_id
    OneTimeToken.use_token User.verify_email RecoverRequest.execute RecoverRequest.request_recover
    request_password_recover User.request_password_recover
requests = refl

execute-IsRecoverRequest_example :
    IsSent forgot.email true OneTimeToken.recover_password demo.password_recover_token_exp
      user_password_recover_requested confirmed asked
execute-IsRecoverRequest_example = execute-IsRecoverRequest forgot confirmed requests
