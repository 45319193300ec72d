-- ===== src/Cases/Inputs.antt =====
-- app/application/dto/user.py. A DTO is the record of its fields; how pydantic fills it is left out.
use hexagonal_auth_service.Base.{Option, Text}

pub record RegisterUserInputDto : Type 0 where
  pub email : Text
  pub password : Text

pub record VerifyEmailInputDto : Type 0 where
  pub one_time_token : Text

pub record LoginUserInputDto : Type 0 where
  pub email : Text
  pub password : Text
  pub client_ip : Option Text
  pub user_agent : Option Text
  pub location : Option Text

pub record RefreshTokenInputDto : Type 0 where
  pub refresh_token : Text
  pub client_ip : Option Text
  pub user_agent : Option Text
  pub location : Option Text

pub record RevokeRefreshTokenInputDto : Type 0 where
  pub refresh_token : Text
  pub client_ip : Option Text
  pub user_agent : Option Text
  pub location : Option Text

pub record ChangePasswordInputDto : Type 0 where
  pub access_token : Text
  pub old_password : Text
  pub new_password : Text

pub record PasswordRecoverRequestInputDto : Type 0 where
  pub email : Text

pub record PasswordRecoverInputDto : Type 0 where
  pub password_recover_token : Text
  pub password : Text

pub record TokenPairDto : Type 0 where
  pub access_token : Text
  pub refresh_token : Text
