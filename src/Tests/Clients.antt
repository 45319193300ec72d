-- ===== src/Tests/Clients.antt =====
-- Requests with concrete headers.
use hexagonal_auth_service.Base.{
  ℕ, ◌≡◌, refl, none, some, [], ◌∷◌, ◌++◌, List, codes, text_eq, strip, is_space, Text, arith,
}
use hexagonal_auth_service.Exec.{ok}
use hexagonal_auth_service.Events.{refresh_token_created}
use hexagonal_auth_service.Events.Serializer.{serialize}
use hexagonal_auth_service.Schema.{RefreshTokenRow}
use hexagonal_auth_service.Utils
use hexagonal_auth_service.Utils.{hash_token}
use hexagonal_auth_service.User
use hexagonal_auth_service.RefreshToken
use hexagonal_auth_service.RiskPolicy.{assess_risk}
use hexagonal_auth_service.AccessToken.{issue}
use hexagonal_auth_service.World.{World, transaction}
use hexagonal_auth_service.Persistence.Users
use hexagonal_auth_service.Persistence.RefreshTokens
use hexagonal_auth_service.EventBus.Publisher.{publish}
use hexagonal_auth_service.Cases.Inputs.{TokenPairDto, RevokeRefreshTokenInputDto}
use hexagonal_auth_service.Cases.Login
use hexagonal_auth_service.Cases.Revoke
use hexagonal_auth_service.Cases.Revoke.Threat.{IsThreat, revoke_token-IsThreat}
use hexagonal_auth_service.Http.Auth.{tokens, answer, serve}
use hexagonal_auth_service.Http.Client.{HttpRequest, comma, get_user_agent, get_location}
use hexagonal_auth_service.Http.Client.Split.{Avoids}
use hexagonal_auth_service.Http.Endpoints.{LoginUserModel, login, case_data, handle}
use hexagonal_auth_service.Http.Endpoints.Login.{login_address_chosen}
use hexagonal_auth_service.Tests.Demo.{demo, start}

abbrev visit : HttpRequest
visit = record {
  x_forwarded_for = some (codes "10.0.0.1, 10.0.0.2");
  x_real_ip = none;
  user_agent = none;
  cf_ipcountry = some (codes "XX");
  x_country_code = none;
  accept_language = some (codes "en-us,en;q=0.9");
  client_host = some (codes "127.0.0.1");
}

abbrev credentials : LoginUserModel
credentials = record { email = codes "ann@example.com"; password = codes "secret-word" }

abbrev home : Text
home = codes "::1"

abbrev forged : HttpRequest
forged = record visit { x_forwarded_for = some (home ++ comma ∷ []) }

abbrev granted_pair : TokenPairDto
granted_pair = record { access_token = 10 ∷ 25 ∷ 1 ∷ []; refresh_token = 11 ∷ 32 ∷ [] }

logs_in :
    handle forged (login credentials) start
    ≡ (tokens granted_pair, (handle forged (login credentials) start).1)
unfolding handle case_data serve answer Login.execute Login.login_user transaction
    Users.get_by_email User.assert_can_login Utils.verify_password issue RefreshToken.create
    User.pull_domain_events RefreshToken.pull_domain_events Users.save RefreshTokens.save publish
    text_eq hash_token codes
logs_in = refl

home_avoids : Avoids comma home
unfolding codes
home_avoids = (λ e. ground arith, (λ e. ground arith, (λ e. ground arith, tt)))

home_stripped : strip home ≡ home
unfolding strip is_space codes
home_stripped = refl

login_address_chosen_example :
    (user_id : ℕ) × (new : RefreshTokenRow) × (time : ℕ) × ((handle forged
        (login credentials)
        start).1.db.refresh_tokens
      ≡ start.db.refresh_tokens ++ new ∷ [])
    × ((handle forged (login credentials) start).1.audit
        ≡ demo.rpush start.audit (
            serialize (record {
              timestamp = time;
              payload =
                  refresh_token_created user_id new.id
                    (some home)
                    (some (get_user_agent visit))
                    (get_location visit);
            })))
login_address_chosen_example =
    login_address_chosen visit credentials home [] start home_avoids home_stripped logs_in

-- a revocation by whoever holds the token
abbrev leaver : RevokeRefreshTokenInputDto
leaver = record {
  refresh_token = 7 ∷ [];
  client_ip = some home;
  user_agent = some (codes "curl");
  location = none;
}

revokes : (events : List _) × (w : World) × (Revoke.revoke_token leaver start ≡ (ok events, w))
unfolding Revoke.revoke_token RefreshTokens.get_by_string RefreshToken.revoke assess_risk
    RefreshToken.pull_domain_events RefreshTokens.save text_eq hash_token codes
revokes = (_, _, refl)

revoke_token-IsThreat_example : IsThreat leaver start revokes.0
revoke_token-IsThreat_example = revoke_token-IsThreat leaver start revokes.2
