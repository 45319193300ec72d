-- ===== src/Cases/Refresh.antt =====
-- cases/user/refresh_token.py
pub mod Refused
pub mod Success
pub mod Reuse
use hexagonal_auth_service.Base.{List, [], ◌∷◌, ◌++◌, Option, none, some, codes}
use hexagonal_auth_service.Errors.{refresh_token_not_found, refresh_token_reuse}
use hexagonal_auth_service.Exec.{Exec, Result, ok, err, pure, raise, or_raise, ◌>>=◌, ◌>>◌}
use hexagonal_auth_service.Env.{Env}
use hexagonal_auth_service.Events.{Event, refresh_token_reuse_detected}
use hexagonal_auth_service.Utils.{utc_now}
use hexagonal_auth_service.World.{World, draw, call, transaction}
use hexagonal_auth_service.RefreshToken
use hexagonal_auth_service.RefreshToken.{RefreshToken}
use hexagonal_auth_service.Services.{rotate}
use hexagonal_auth_service.Persistence.RefreshTokens
use hexagonal_auth_service.EventBus.Publisher.{publish}
use hexagonal_auth_service.Cases.Inputs.{RefreshTokenInputDto, TokenPairDto}

module _ ⦃env : Env⦄ where
  -- the block under the first `async with self.tx`
  unfoldable pub refresh : RefreshTokenInputDto → Exec World (TokenPairDto × List Event)
  refresh input = do
    found ← RefreshTokens.get_by_string input.refresh_token
    rt ← or_raise found (refresh_token_not_found (codes "Refresh token not found"))
    (_, rt₁) ← call RefreshToken.use_token rt
    ((new_rt, new_rt_str, access_token), rt₂) ←
        call (rotate env.refresh_token_len env.refresh_token_exp env.access_token_exp) rt₁
    (old_events, rt₃) ← call RefreshToken.pull_domain_events rt₂
    (new_events, new_rt₁) ← call RefreshToken.pull_domain_events new_rt
    RefreshTokens.save rt₃
    RefreshTokens.save new_rt₁
    pure (
      record { access_token = access_token; refresh_token = new_rt_str },
      old_events ++ new_events,
    )

  -- the event for a token that is still there
  unfoldable pub reuse_events : Option RefreshToken → RefreshTokenInputDto → Exec World (List Event)
  unfolding utc_now
  reuse_events none input = pure []
  reuse_events (some rt) input = do
    now ← draw utc_now
    let detected =
        refresh_token_reuse_detected rt.user_id rt.id input.client_ip input.user_agent
          input.location
    pure (record { timestamp = now; payload = detected } ∷ [])

  -- the block under the second `async with self.tx`
  unfoldable pub detect_reuse : RefreshTokenInputDto → Exec World (List Event)
  unfolding reuse_events
  detect_reuse input = do
    found ← RefreshTokens.get_by_string input.refresh_token
    reuse_events found input

  -- what the `try` leaves: a new pair, `except RefreshTokenReuse`, or another error
  unfoldable pub handle :
      RefreshTokenInputDto → Result (TokenPairDto × List Event) → Exec World TokenPairDto
  handle input (ok (response_data, _)) w = (ok response_data, w)
  handle input (err (refresh_token_reuse m)) w =
      (do events ← transaction (detect_reuse input); publish events; raise (refresh_token_reuse m))
        w
  handle input (err e) w = (err e, w)

  unfoldable pub execute : RefreshTokenInputDto → Exec World TokenPairDto
  unfolding refresh transaction handle
  execute input w = let (r, w₁) = transaction (refresh input) w in handle input r w₁
