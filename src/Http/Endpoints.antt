-- ===== src/Http/Endpoints.antt =====
-- routers/auth.py and routers/schemas.py: what each endpoint reads, and the DTO that it makes of it.
pub mod Login
use hexagonal_auth_service.Base.{Option, some, Text, codes}
use hexagonal_auth_service.Env.{Env}
use hexagonal_auth_service.World.{World}
use hexagonal_auth_service.Cases.Inputs.{
  RegisterUserInputDto, VerifyEmailInputDto, PasswordRecoverRequestInputDto,
  PasswordRecoverInputDto, TokenPairDto,
}
use hexagonal_auth_service.Http.Auth.{Response, Request, serve}
use hexagonal_auth_service.Http.Auth
use hexagonal_auth_service.Http.Client.{HttpRequest, get_client_ip, get_user_agent, get_location}

pub record RefreshTokenModel : Type 0 where
  pub refresh_token : Text

pub record LoginUserModel : Type 0 where
  pub email : Text
  pub password : Text

pub record ChangePasswordModel : Type 0 where
  pub old_password : Text
  pub new_password : Text

pub record TokenResponse : Type 0 where
  pub refresh_token : Text
  pub access_token : Text
  pub token_type : Text

-- `token_response`
unfoldable pub token_response : TokenPairDto → TokenResponse
token_response result = record {
  access_token = result.access_token;
  refresh_token = result.refresh_token;
  token_type = codes "bearer";
}

-- the endpoints with their bodies; `change_password` comes with the bearer token
pub data Endpoint : Type 0 where
  register_user : RegisterUserInputDto → Endpoint
  verify_email : VerifyEmailInputDto → Endpoint
  login : LoginUserModel → Endpoint
  refresh_token revoke_token : RefreshTokenModel → Endpoint
  change_password : ChangePasswordModel → Text → Endpoint
  request_password_recover : PasswordRecoverRequestInputDto → Endpoint
  password_recover : PasswordRecoverInputDto → Endpoint
  swagger_token : (username password : Text) → Endpoint

module _ ⦃env : Env⦄ where
  unfoldable pub case_data : HttpRequest → Endpoint → Request
  unfolding get_client_ip get_user_agent get_location
  case_data request (register_user body) = Request.register body
  case_data request (verify_email body) = Request.verify_email body
  case_data request (login body) = Request.token (record {
    email = body.email;
    password = body.password;
    client_ip = some (get_client_ip request);
    user_agent = some (get_user_agent request);
    location = get_location request;
  })
  case_data request (refresh_token body) = Request.refresh (record {
    refresh_token = body.refresh_token;
    client_ip = some (get_client_ip request);
    user_agent = some (get_user_agent request);
    location = get_location request;
  })
  case_data request (revoke_token body) = Request.revoke (record {
    refresh_token = body.refresh_token;
    client_ip = some (get_client_ip request);
    user_agent = some (get_user_agent request);
    location = get_location request;
  })
  case_data request (change_password body access_token) = Request.password_change (record {
    access_token = access_token;
    old_password = body.old_password;
    new_password = body.new_password;
  })
  case_data request (request_password_recover body) = Request.password_recover_request body
  case_data request (password_recover body) = Request.password_recover body
  case_data request (swagger_token username password) =
      Request.swagger_token username password (some (get_client_ip request))
        (some (get_user_agent request)) (get_location request)

  unfoldable pub handle : HttpRequest → Endpoint → World → Response × World
  unfolding case_data
  handle request endpoint w = serve (case_data request endpoint) w
