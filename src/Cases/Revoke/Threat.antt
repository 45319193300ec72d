-- ===== src/Cases/Revoke/Threat.antt =====
-- cases/user/revoke_token.py: the events of a revocation.
use hexagonal_auth_service.Base.{ℕ, suc, ◌≡◌, ◌≢◌, refl, List, [], ◌∷◌, arith}
use hexagonal_auth_service.Exec.{ok}
use hexagonal_auth_service.Env.{Env}
use hexagonal_auth_service.Events.{
  Event, suspicious_refresh_token_revocation, refresh_token_revoked,
}
use hexagonal_auth_service.Schema.{RefreshTokenRow}
use hexagonal_auth_service.World.{World}
use hexagonal_auth_service.RefreshToken
use hexagonal_auth_service.RiskPolicy.{assess_risk}
use hexagonal_auth_service.Persistence.RefreshTokens
use hexagonal_auth_service.Cases.Inputs.{RevokeRefreshTokenInputDto}
use hexagonal_auth_service.Cases.Revoke.{revoke_token}
use hexagonal_auth_service.Cases.Refresh.Success.{hits}

module _ ⦃env : Env⦄ where
  -- The events of a revocation of the token in a row.
  pub record IsThreat (i : RevokeRefreshTokenInputDto) (w : World) (events : List Event)
      : Type 0 where
    pub row : RefreshTokenRow
    pub found : hits i.refresh_token w ≡ row ∷ []
    pub time : ℕ
    pub revoked_time : ℕ
    pub all :
        events
        ≡ record {
          timestamp = time;
          payload =
              suspicious_refresh_token_revocation row.user_id row.id i.client_ip i.user_agent
                i.location;
        }
          ∷ record { timestamp = revoked_time; payload = refresh_token_revoked row.user_id row.id }
          ∷ []

  one_row :
      (i : RevokeRefreshTokenInputDto) (w : World) (r : RefreshTokenRow) {events : List Event}
      {v : World}
      → hits i.refresh_token w ≡ r ∷ []
      → revoke_token i w ≡ (ok events, v)
      → IsThreat i w events
  unfolding revoke_token RefreshTokens.get_by_string RefreshToken.revoke assess_risk
      RefreshToken.pull_domain_events
  one_row i w r e h = record {
    row = r;
    found = e;
    time = env.clock (suc (suc (suc w.calls)));
    revoked_time = env.clock (suc (suc w.calls));
    all = ground arith;
  }

  no_row :
      (i : RevokeRefreshTokenInputDto) (w : World) {events : List Event} {v : World}
      → hits i.refresh_token w ≡ []
      → revoke_token i w ≢ (ok events, v)
  unfolding revoke_token RefreshTokens.get_by_string
  no_row i w e = ground arith

  two_rows :
      (i : RevokeRefreshTokenInputDto) (w : World) (r q : RefreshTokenRow)
      (rows : List RefreshTokenRow) {events : List Event} {v : World}
      → hits i.refresh_token w ≡ r ∷ q ∷ rows
      → revoke_token i w ≢ (ok events, v)
  unfolding revoke_token RefreshTokens.get_by_string
  two_rows i w r q rows e = ground arith

  -- A revocation that returns always announces a `SuspiciousRefreshTokenRevocation` before the
  -- `RefreshTokenRevoked`, from whatever client and to whatever client the token was given: the stored
  -- rows do not hold the client's address, so that the policy never finds the ranges equal.
  pub revoke_token-IsThreat :
      (i : RevokeRefreshTokenInputDto) (w : World) {events : List Event} {v : World}
      → revoke_token i w ≡ (ok events, v)
      → IsThreat i w events
  revoke_token-IsThreat i w {events} {v} h = split (hits i.refresh_token w) refl
    where
      split : (rows : List RefreshTokenRow) → hits i.refresh_token w ≡ rows → IsThreat i w events
      split [] e = absurd (no_row i w e h)
      split (r ∷ q ∷ rows) e = absurd (two_rows i w r q rows e h)
      split (r ∷ []) e = one_row i w r e h
