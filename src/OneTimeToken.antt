-- ===== src/OneTimeToken.antt =====
-- app/core/domain/entities/one_time_token.py: a token for one use, for one purpose.
pub mod Use
use hexagonal_auth_service.Base.{
  ℕ, ◌+◌, Bool, true, false, not, leb, Option, none, Text, codes, if◌then◌else◌,
}
use hexagonal_auth_service.Errors.{token_error}
use hexagonal_auth_service.Exec.{Exec, pure, raise_if, ◌>>=◌, ◌>>◌}
use hexagonal_auth_service.Env.{Env}
use hexagonal_auth_service.Utils.{utc_now, uuid4, generate_token, hash_token}
use hexagonal_auth_service.Live.{Live, outside, this, assign}

pub data OneTimeTokenPurpose : Type 0 where
  verify_email recover_password : OneTimeTokenPurpose

-- `==` on the enumeration
unfoldable pub purpose_eq : OneTimeTokenPurpose → OneTimeTokenPurpose → Bool
purpose_eq verify_email verify_email = true
purpose_eq recover_password recover_password = true
purpose_eq _ _ = false

pub record OneTimeToken : Type 0 where
  pub id : ℕ
  pub user_id : ℕ
  pub token_hash : Text
  pub expires_at : ℕ
  pub purpose : OneTimeTokenPurpose
  pub used : Bool
  pub version : Option ℕ

module _ ⦃env : Env⦄ where
  unfoldable pub create : ℕ → ℕ → ℕ → OneTimeTokenPurpose → Exec ℕ (OneTimeToken × Text)
  unfolding utc_now uuid4 generate_token hash_token
  create user_id token_length expiry purpose = do
    now ← utc_now
    token_string ← generate_token token_length
    id ← uuid4
    pure (
      record {
        id = id;
        user_id = user_id;
        token_hash = hash_token token_string;
        expires_at = now + expiry;
        purpose = purpose;
        used = false;
        version = none;
      },
      token_string,
    )

  -- `now` is asked first, and `used` does not spare the call
  unfoldable pub is_usable : Exec (Live OneTimeToken) Bool
  unfolding utc_now
  is_usable = do
    now ← outside utc_now
    token ← this
    pure (if token.used then false else leb now token.expires_at)

  unfoldable pub use_token : OneTimeTokenPurpose → Exec (Live OneTimeToken) (Unit {0})
  unfolding is_usable purpose_eq
  use_token purpose = do
    token ← this
    raise_if (not (purpose_eq token.purpose purpose)) (token_error (codes "Token purpose mismatch"))
    usable ← is_usable
    raise_if (not usable) (token_error (codes "Cannot use invalid token"))
    assign (λ t. record t { used = true })
