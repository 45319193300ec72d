-- ===== src/Validators/Password.antt =====
-- `validate_password` and `validate_hash_password`. The argument is a string.
pub mod Stripped
use hexagonal_auth_service.Base.{ℕ, Text, codes, strip, length, ltb, if◌then◌else◌}
use hexagonal_auth_service.Errors.{password_validation_error}
use hexagonal_auth_service.Exec.{Result, ok, err, Exec, lift, ◌>>=◌}
use hexagonal_auth_service.Env.{Env}
use hexagonal_auth_service.Utils.{hash_password}

abbrev pub min_password_len : ℕ
min_password_len = 8

abbrev pub max_password_len : ℕ
max_password_len = 255

-- the tests on the stripped password
unfoldable pub check_length : Text → Result Text
check_length password =
    if ltb (length password) min_password_len
    then err (password_validation_error (codes "Password must be at least 8 characters"))
    else if ltb max_password_len (length password)
    then err (password_validation_error (codes "Password must not exceed 255 characters"))
    else ok password

unfoldable pub validate_password : Text → Result Text
unfolding check_length
validate_password password = check_length (strip password)

module _ ⦃env : Env⦄ where
  unfoldable pub validate_hash_password : Text → Exec ℕ Text
  unfolding hash_password
  validate_hash_password password = do
    valid ← lift (validate_password password)
    hash_password valid
