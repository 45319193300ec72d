-- ===== src/Http/Auth.antt =====
-- app/adapters/inbound/http/routers/auth.py: the endpoints. FastAPI resolves the parameters before it
-- calls an endpoint; they are its arguments here.
use hexagonal_auth_service.Base.{ℕ, Option, Text, if◌then◌else◌}
use hexagonal_auth_service.Errors.{Error, is_base_error, detail}
use hexagonal_auth_service.Exec.{Result, ok, err}
use hexagonal_auth_service.Env.{Env}
use hexagonal_auth_service.World.{World}
use hexagonal_auth_service.Cases.Inputs.{
  RegisterUserInputDto, VerifyEmailInputDto, LoginUserInputDto, RefreshTokenInputDto,
  RevokeRefreshTokenInputDto, ChangePasswordInputDto, PasswordRecoverRequestInputDto,
  PasswordRecoverInputDto, TokenPairDto,
}
use hexagonal_auth_service.Cases.Register
use hexagonal_auth_service.Cases.VerifyEmail
use hexagonal_auth_service.Cases.Login
use hexagonal_auth_service.Cases.Refresh
use hexagonal_auth_service.Cases.Revoke
use hexagonal_auth_service.Cases.ChangePassword
use hexagonal_auth_service.Cases.RecoverRequest
use hexagonal_auth_service.Cases.Recover

-- A response: 200 with `null` or a `TokenResponse`, an `HTTPException` with its status and detail, or
-- what FastAPI makes of an exception that the endpoint lets through, status 500.
pub data Response : Type 0 where
  null : Response
  tokens : TokenPairDto → Response
  http_exception : ℕ → Text → Response
  internal_server_error : Response

-- the routes, with what they read: a body, and the client's address, agent and location
pub data Request : Type 0 where
  register : RegisterUserInputDto → Request
  verify_email : VerifyEmailInputDto → Request
  token : LoginUserInputDto → Request
  refresh : RefreshTokenInputDto → Request
  revoke : RevokeRefreshTokenInputDto → Request
  password_change : ChangePasswordInputDto → Request
  password_recover_request : PasswordRecoverRequestInputDto → Request
  password_recover : PasswordRecoverInputDto → Request
  swagger_token : (username password : Text) (client_ip user_agent location : Option Text) → Request

-- `except BaseError as e: raise domain_error(e, status_code)`
unfoldable pub domain_error : Error → ℕ → Response
unfolding is_base_error detail
domain_error e status_code =
    if is_base_error e then http_exception status_code (detail e) else internal_server_error

unfoldable pub answer : {A : Type 0} → ℕ → (A → Response) → Result A × World → Response × World
unfolding domain_error
answer status_code respond (ok a, w) = (respond a, w)
answer status_code respond (err e, w) = (domain_error e status_code, w)

-- `except BaseError: pass`
unfoldable pub answer_silently : Result (Unit {0}) × World → Response × World
unfolding is_base_error
answer_silently (ok a, w) = (null, w)
answer_silently (err e, w) = (if is_base_error e then null else internal_server_error, w)

abbrev bad_request : ℕ
bad_request = 400

abbrev unauthorized : ℕ
unauthorized = 401

abbrev no_content : Unit {0} → Response
no_content _ = null

-- what `swagger_token` makes of its form
abbrev pub form_input :
    (username password : Text) (client_ip user_agent location : Option Text) → LoginUserInputDto
form_input username password client_ip user_agent location = record {
  email = username;
  password = password;
  client_ip = client_ip;
  user_agent = user_agent;
  location = location;
}

module _ ⦃env : Env⦄ where
  unfoldable pub serve : Request → World → Response × World
  unfolding answer answer_silently
  serve (register input) w = answer bad_request no_content (Register.execute input w)
  serve (verify_email input) w = answer bad_request no_content (VerifyEmail.execute input w)
  serve (token input) w = answer unauthorized tokens (Login.execute input w)
  serve (refresh input) w = answer bad_request tokens (Refresh.execute input w)
  serve (revoke input) w = answer bad_request no_content (Revoke.execute input w)
  serve (password_change input) w = answer bad_request no_content (ChangePassword.execute input w)
  serve (password_recover_request input) w = answer_silently (RecoverRequest.execute input w)
  serve (password_recover input) w = answer bad_request no_content (Recover.execute input w)
  serve (swagger_token username password client_ip user_agent location) w =
      answer unauthorized tokens
        (Login.execute (form_input username password client_ip user_agent location) w)
