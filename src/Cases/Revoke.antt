-- ===== src/Cases/Revoke.antt =====
-- cases/user/revoke_token.py
pub mod Threat
use hexagonal_auth_service.Base.{ℕ, zero, suc, List, [], ◌∷◌, ◌++◌, codes}
use hexagonal_auth_service.Errors.{refresh_token_not_found}
use hexagonal_auth_service.Exec.{Exec, pure, or_raise, ◌>>=◌, ◌>>◌}
use hexagonal_auth_service.Env.{Env}
use hexagonal_auth_service.Events.{Event, suspicious_refresh_token_revocation}
use hexagonal_auth_service.Utils.{utc_now}
use hexagonal_auth_service.World.{World, draw, call, transaction}
use hexagonal_auth_service.RefreshToken
use hexagonal_auth_service.RefreshToken.{RefreshToken}
use hexagonal_auth_service.RiskPolicy.{assess_risk}
use hexagonal_auth_service.Persistence.RefreshTokens
use hexagonal_auth_service.EventBus.Publisher.{publish}
use hexagonal_auth_service.Cases.Inputs.{RevokeRefreshTokenInputDto}

module _ ⦃env : Env⦄ where
  -- `if security_threat: events.append(...)`
  unfoldable pub threat_events :
      ℕ → RefreshToken → RevokeRefreshTokenInputDto → Exec World (List Event)
  unfolding utc_now
  threat_events zero rt input = pure []
  threat_events (suc security_threat) rt input = do
    now ← draw utc_now
    let suspicious =
        suspicious_refresh_token_revocation rt.user_id rt.id input.client_ip input.user_agent
          input.location
    pure (record { timestamp = now; payload = suspicious } ∷ [])

  -- the block under `async with self.tx`
  unfoldable pub revoke_token : RevokeRefreshTokenInputDto → Exec World (List Event)
  unfolding threat_events
  revoke_token input = do
    found ← RefreshTokens.get_by_string input.refresh_token
    rt ← or_raise found (refresh_token_not_found (codes "Refresh token not found"))
    (_, rt₁) ← call RefreshToken.revoke rt
    let security_threat =
        assess_risk rt₁.client_ip rt₁.user_agent rt₁.location input.client_ip input.user_agent
          input.location
    threats ← threat_events security_threat rt₁ input
    (token_events, rt₂) ← call RefreshToken.pull_domain_events rt₁
    RefreshTokens.save rt₂
    pure (threats ++ token_events)

  unfoldable pub execute : RevokeRefreshTokenInputDto → Exec World (Unit {0})
  unfolding revoke_token transaction
  execute input = do events ← transaction (revoke_token input); publish events
