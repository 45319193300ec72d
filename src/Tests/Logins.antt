-- ===== src/Tests/Logins.antt =====
-- A login at a concrete state.
use hexagonal_auth_service.Base.{◌≡◌, refl, none, some, [], ◌∷◌, codes, text_eq}
use hexagonal_auth_service.Exec.{ok}
use hexagonal_auth_service.Utils
use hexagonal_auth_service.Utils.{hash_token}
use hexagonal_auth_service.User
use hexagonal_auth_service.RefreshToken
use hexagonal_auth_service.AccessToken.{issue}
use hexagonal_auth_service.World.{transaction}
use hexagonal_auth_service.Persistence.Users
use hexagonal_auth_service.Persistence.RefreshTokens
use hexagonal_auth_service.EventBus.Publisher.{publish}
use hexagonal_auth_service.Cases.Inputs.{LoginUserInputDto, TokenPairDto}
use hexagonal_auth_service.Cases.Login
use hexagonal_auth_service.Cases.Login.Grant.{IsLogin, execute-IsLogin}
use hexagonal_auth_service.Tests.Demo.{demo, start}

abbrev pub credentials : LoginUserInputDto
credentials = record {
  email = codes "ann@example.com";
  password = codes "secret-word";
  client_ip = none;
  user_agent = some (codes "curl");
  location = none;
}

abbrev granted_pair : TokenPairDto
granted_pair = record { access_token = 10 ∷ 25 ∷ 1 ∷ []; refresh_token = 11 ∷ 32 ∷ [] }

logs_in : Login.execute credentials start ≡ (ok granted_pair, (Login.execute credentials start).1)
unfolding Login.execute Login.login_user transaction Users.get_by_email User.assert_can_login
    Utils.verify_password issue RefreshToken.create User.pull_domain_events
    RefreshToken.pull_domain_events Users.save RefreshTokens.save publish text_eq hash_token codes
logs_in = refl

execute-IsLogin_example : IsLogin credentials start granted_pair (Login.execute credentials start).1
execute-IsLogin_example = execute-IsLogin credentials start logs_in
