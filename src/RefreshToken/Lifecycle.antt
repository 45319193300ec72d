-- ===== src/RefreshToken/Lifecycle.antt =====
-- app/core/domain/entities/refresh_token.py: when a token is live, and what its methods keep.
use hexagonal_auth_service.Base.{ℕ, ◌≡◌, ◌≢◌, ◌↔◌, ◌⊎◌, true, none, some, ◌≤◌, ◌<◌, arith, codes}
use hexagonal_auth_service.Errors.{Error, token_error, refresh_token_reuse}
use hexagonal_auth_service.Exec.{Result, ok, err, ◌>>◌}
use hexagonal_auth_service.Env.{Env}
use hexagonal_auth_service.Live.{Live}
use hexagonal_auth_service.RefreshToken.{
  RefreshToken, revoke, mark_as_replaced_by, use_token, is_usable, pull_domain_events,
}

-- a call of one of the methods that change the token
pub data Method : Type 0 where
  revokes uses pulls_events : Method
  marks_as_replaced_by : ℕ → Method

-- not revoked, not replaced, and not expired at a time
abbrev pub IsLive : RefreshToken → ℕ → Type 0
IsLive t now = (t.revoked_at ≡ none) × (t.replaced_by_id ≡ none) × (now ≤ t.expires_at)

module _ ⦃env : Env⦄ where
  unfoldable pub run : Method → Live RefreshToken → Result (Unit {0}) × Live RefreshToken
  unfolding revoke mark_as_replaced_by use_token pull_domain_events
  run revokes s = revoke s
  run uses s = use_token s
  run pulls_events s = (do pull_domain_events; λ t. (ok tt, t)) s
  run (marks_as_replaced_by n) s = mark_as_replaced_by n s

  -- `use` returns exactly for a live token, `is_usable` says so, and a replaced token raises
  -- `RefreshTokenReuse` while one that is revoked or expired and
  -- not replaced raises `TokenError`.
  pub live_use_iff :
      (s : Live RefreshToken)
      → (((use_token s).0 ≡ ok tt) ↔ IsLive s.self (env.clock s.calls))
        × (((is_usable s).0 ≡ ok true) ↔ IsLive s.self (env.clock s.calls))
        × (s.self.replaced_by_id ≢ none
            → (use_token s).0
              ≡ err (refresh_token_reuse (codes "Refresh token replaced by another token")))
        × (s.self.replaced_by_id ≡ none
            → (s.self.revoked_at ≢ none) ⊎ (s.self.expires_at < env.clock s.calls)
            → (use_token s).0 ≡ err (token_error (codes "Token cannot be used")))
  unfolding use_token is_usable
  live_use_iff s = (
    (λ h. ground arith, λ h. ground arith),
    (λ h. ground arith, λ h. ground arith),
    λ h. ground arith,
    λ h k. ground arith,
  )

  -- A method that raises leaves the token as it was.
  pub token_run-raises :
      (m : Method) (s : Live RefreshToken) (e : Error)
      → (run m s).0 ≡ err e
      → (run m s).1.self ≡ s.self
  unfolding run
  token_run-raises revokes s e h = ground arith
  token_run-raises _ s e h = ground arith

  -- The time of revocation and the successor, once set, never change under a method, whether it returns
  -- or raises, and no method changes the expiry, the hash or the owner of a token.
  pub token_run_keeps :
      (m : Method) (s : Live RefreshToken)
      → ((t : ℕ) → s.self.revoked_at ≡ some t → (run m s).1.self.revoked_at ≡ some t)
        × ((n : ℕ) → s.self.replaced_by_id ≡ some n → (run m s).1.self.replaced_by_id ≡ some n)
        × ((run m s).1.self.expires_at ≡ s.self.expires_at)
        × ((run m s).1.self.token_hash ≡ s.self.token_hash)
        × ((run m s).1.self.user_id ≡ s.self.user_id)
  unfolding run
  token_run_keeps revokes s =
      (λ t h. ground arith, λ n h. ground arith, ground arith, ground arith, ground arith)
  token_run_keeps _ s =
      (λ t h. ground arith, λ n h. ground arith, ground arith, ground arith, ground arith)
