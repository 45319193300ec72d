-- ===== src/Tests/Verifications.antt =====
-- The same verification token, twice.
use hexagonal_auth_service.Base.{◌≡◌, refl, false, [], ◌∷◌, codes, text_eq}
use hexagonal_auth_service.Errors.{Error}
use hexagonal_auth_service.Exec.{ok, err}
use hexagonal_auth_service.Utils.{hash_token}
use hexagonal_auth_service.User
use hexagonal_auth_service.OneTimeToken
use hexagonal_auth_service.World.{World, transaction}
use hexagonal_auth_service.World.Unchanged.{IsUnchanged}
use hexagonal_auth_service.Persistence.Users
use hexagonal_auth_service.Persistence.OneTimeTokens
use hexagonal_auth_service.EventBus.Publisher.{publish}
use hexagonal_auth_service.Cases.Inputs.{VerifyEmailInputDto}
use hexagonal_auth_service.Cases.VerifyEmail
use hexagonal_auth_service.Cases.VerifyEmail.Once.{verification_once}
use hexagonal_auth_service.Tests.Demo.{demo, start, ann}

-- ann before the verification, with the token whose string is the text 9
abbrev invited : World
invited = record start {
  db = record {
    users = record ann { is_email_verified = false } ∷ [];
    one_time_tokens =
        record {
          id = 3;
          token_hash = 36 ∷ 9 ∷ [];
          user_id = 1;
          expires_at = 500;
          version = 1;
          used = false;
          purpose = codes "verify_email";
        }
        ∷ [];
    refresh_tokens = [];
  };
}

abbrev answer : VerifyEmailInputDto
answer = record { one_time_token = 9 ∷ [] }

verifies : VerifyEmail.execute answer invited ≡ (ok tt, (VerifyEmail.execute answer invited).1)
unfolding VerifyEmail.execute VerifyEmail.verify_user transaction OneTimeTokens.get_by_string
    Users.get_by_id OneTimeToken.use_token User.verify_email User.pull_domain_events Users.save
    OneTimeTokens.save publish text_eq hash_token codes
verifies = refl

verification_once_example :
    (e : Error) × ((VerifyEmail.execute answer (VerifyEmail.execute answer invited).1).0 ≡ err e)
    × IsUnchanged
        (VerifyEmail.execute answer invited).1
        (VerifyEmail.execute answer (VerifyEmail.execute answer invited).1).1
verification_once_example = verification_once answer answer invited verifies refl
