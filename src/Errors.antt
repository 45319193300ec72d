-- ===== src/Errors.antt =====
-- The exceptions: app/core/domain/exceptions, app/application/exceptions, and what the libraries raise.
use hexagonal_auth_service.Base.{Bool, true, false, [], Text}

-- Each class, with its message. Those on the last two lines are not `BaseError`s.
pub data Error : Type 0 where
  user_error token_error refresh_token_reuse : Text → Error
  invalid_access_token access_token_expired : Text → Error
  email_validation_error password_validation_error : Text → Error
  user_not_found one_time_token_not_found refresh_token_not_found : Text → Error
  user_already_exists concurrency_error : Text → Error
  integrity_error multiple_results_found value_error : Error
  key_error validation_error type_error : Error

-- `isinstance(e, BaseError)`
unfoldable pub is_base_error : Error → Bool
is_base_error integrity_error = false
is_base_error multiple_results_found = false
is_base_error value_error = false
is_base_error key_error = false
is_base_error validation_error = false
is_base_error type_error = false
is_base_error _ = true

-- `str(e)` of a `BaseError`
unfoldable pub detail : Error → Text
detail (user_error m) = m
detail (token_error m) = m
detail (refresh_token_reuse m) = m
detail (invalid_access_token m) = m
detail (access_token_expired m) = m
detail (email_validation_error m) = m
detail (password_validation_error m) = m
detail (user_not_found m) = m
detail (one_time_token_not_found m) = m
detail (refresh_token_not_found m) = m
detail (user_already_exists m) = m
detail (concurrency_error m) = m
detail _ = []
