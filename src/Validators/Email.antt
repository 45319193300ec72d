-- ===== src/Validators/Email.antt =====
-- `validate_email`. The argument is a string, so the tests for `None` and for another type are not made.
pub mod Language
use hexagonal_auth_service.Base.{
  ℕ, Bool, true, false, ◌&&◌, ◌||◌, not, [], ◌∷◌, ◌++◌, Text, codes, strip, ◌==◌, if◌then◌else◌,
}
use hexagonal_auth_service.Errors.{email_validation_error}
use hexagonal_auth_service.Exec.{Result, ok, err}
use hexagonal_auth_service.Env.{Env}

abbrev pub at_sign : ℕ
at_sign = b'@'

abbrev pub dot : ℕ
dot = b'.'

-- `[^@]*`, on the whole text
unfoldable pub no_at : Text → Bool
no_at [] = true
no_at (c ∷ s) = not (c == at_sign) && no_at s

unfoldable pub is_nonempty : Text → Bool
is_nonempty [] = false
is_nonempty (c ∷ s) = true

-- `\.[^@]+` begins at some place of the text
unfoldable pub ends_in_label : Text → Bool
unfolding no_at is_nonempty
ends_in_label [] = false
ends_in_label (c ∷ s) = (c == dot && is_nonempty s && no_at s) || ends_in_label s

-- `[^@]+\.[^@]+` matches the whole text
unfoldable pub matches_domain : Text → Bool
unfolding ends_in_label
matches_domain [] = false
matches_domain (c ∷ s) = not (c == at_sign) && no_at s && ends_in_label s

-- `[^@]*@[^@]+\.[^@]+` matches the whole text
unfoldable pub matches_rest : Text → Bool
unfolding matches_domain
matches_rest [] = false
matches_rest (c ∷ s) = if c == at_sign then matches_domain s else matches_rest s

-- `_EMAIL_REGEX.fullmatch(email)`
unfoldable pub matches_email : Text → Bool
unfolding matches_rest
matches_email [] = false
matches_email (c ∷ s) = not (c == at_sign) && matches_rest s

-- the tests on the sanitised address
unfoldable pub check_format : Text → Result Text
unfolding matches_email
check_format email =
    if matches_email email
    then ok email
    else err (email_validation_error (codes "Invalid email format: '" ++ email ++ codes "'"))

module _ ⦃env : Env⦄ where
  unfoldable pub validate_email : Text → Result Text
  unfolding check_format
  validate_email [] = err (email_validation_error (codes "Email is required"))
  validate_email (c ∷ s) = check_format (env.lower (strip (c ∷ s)))
