-- ===== src/OneTimeToken/Use.antt =====
-- app/core/domain/entities/one_time_token.py: when a token can be used.
use hexagonal_auth_service.Base.{◌≡◌, ◌↔◌, true, false, ◌≤◌, ◌⊎◌, arith, codes}
use hexagonal_auth_service.Errors.{Error, token_error}
use hexagonal_auth_service.Exec.{ok, err}
use hexagonal_auth_service.Env.{Env}
use hexagonal_auth_service.Live.{Live}
use hexagonal_auth_service.OneTimeToken.{OneTimeToken, OneTimeTokenPurpose, purpose_eq, use_token}

pub purpose_eq_iff : (p q : OneTimeTokenPurpose) → (purpose_eq p q ≡ true) ↔ (p ≡ q)
unfolding purpose_eq
purpose_eq_iff p q = ground arith

module _ ⦃env : Env⦄ where
  -- `use` returns exactly for the token's own purpose, while it is unused and the clock has not passed
  -- its expiry; then it is marked as used and nothing else in it changes. If `use` raises, the error is
  -- a `TokenError` and the token is as it was.
  pub use_token_iff :
      (p : OneTimeTokenPurpose) (s : Live OneTimeToken)
      → (((use_token p s).0 ≡ ok tt) ↔ (
          (s.self.purpose ≡ p) × (s.self.used ≡ false) × (env.clock s.calls ≤ s.self.expires_at)))
        × ((use_token p s).0 ≡ ok tt → (use_token p s).1.self ≡ record s.self { used = true })
        × ((e : Error)
            → (use_token p s).0 ≡ err e
            → ((use_token p s).1.self ≡ s.self)
              × ((e ≡ token_error (codes "Token purpose mismatch"))
                  ⊎ (e ≡ token_error (codes "Cannot use invalid token"))))
  unfolding use_token
  use_token_iff p s =
      ((λ h. ground arith, λ h. ground arith), λ h. ground arith, λ e h. ground arith)
