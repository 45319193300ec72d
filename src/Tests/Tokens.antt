-- ===== src/Tests/Tokens.antt =====
-- Tokens at concrete states.
use hexagonal_auth_service.Base.{
  ◌≡◌, ◌≢◌, refl, ◌↔◌, ◌⊎◌, true, false, none, some, [], ◌∷◌, codes, ◌<◌, ℕ,
}
use hexagonal_auth_service.Errors.{token_error, refresh_token_reuse}
use hexagonal_auth_service.Exec.{ok, err}
use hexagonal_auth_service.Live.{Live}
use hexagonal_auth_service.OneTimeToken.{OneTimeToken, verify_email}
use hexagonal_auth_service.RefreshToken.{RefreshToken}
use hexagonal_auth_service.RefreshToken
use hexagonal_auth_service.RefreshToken.Lifecycle
use hexagonal_auth_service.RefreshToken.Lifecycle.{
  IsLive, uses, live_use_iff, token_run-raises, token_run_keeps,
}
use hexagonal_auth_service.Tests.Demo.{demo}

abbrev mail_token : Live OneTimeToken
mail_token = record {
  self = record {
    id = 3;
    user_id = 1;
    purpose = verify_email;
    expires_at = 500;
    token_hash = 36 ∷ 9 ∷ [];
    used = false;
    version = some 1;
  };
  calls = 20;
}

abbrev replaced_token : Live RefreshToken
replaced_token = record {
  self = record {
    id = 2;
    user_id = 1;
    expires_at = 1000;
    token_hash = 36 ∷ 7 ∷ [];
    revoked_at = some 15;
    replaced_by_id = some 8;
    client_ip = none;
    user_agent = none;
    location = none;
    created_at = 0;
    version = some 2;
    events = [];
  };
  calls = 20;
}

live_use_iff_example :
    (((RefreshToken.use_token replaced_token).0 ≡ ok tt) ↔ IsLive replaced_token.self 20)
    × (((RefreshToken.is_usable replaced_token).0 ≡ ok true) ↔ IsLive replaced_token.self 20)
    × (replaced_token.self.replaced_by_id ≢ none
        → (RefreshToken.use_token replaced_token).0
          ≡ err (refresh_token_reuse (codes "Refresh token replaced by another token")))
    × (replaced_token.self.replaced_by_id ≡ none
        → (replaced_token.self.revoked_at ≢ none) ⊎ (1000 < 20)
        → (RefreshToken.use_token replaced_token).0
          ≡ err (token_error (codes "Token cannot be used")))
live_use_iff_example = live_use_iff replaced_token

use_refused :
    (Lifecycle.run uses replaced_token).0
    ≡ err (refresh_token_reuse (codes "Refresh token replaced by another token"))
unfolding Lifecycle.run RefreshToken.use_token
use_refused = refl

token_run_keeps_example :
    ((t : ℕ) → some 15 ≡ some t → (Lifecycle.run uses replaced_token).1.self.revoked_at ≡ some t)
    × ((n : ℕ)
        → some 8 ≡ some n
        → (Lifecycle.run uses replaced_token).1.self.replaced_by_id ≡ some n)
    × ((Lifecycle.run uses replaced_token).1.self.expires_at ≡ 1000)
    × ((Lifecycle.run uses replaced_token).1.self.token_hash ≡ 36 ∷ 7 ∷ [])
    × ((Lifecycle.run uses replaced_token).1.self.user_id ≡ 1)
token_run_keeps_example = token_run_keeps uses replaced_token
