-- ===== src/Tests/Refresh.antt =====
-- Rotations at a concrete state.
use hexagonal_auth_service.Base.{◌≡◌, ◌≢◌, refl, none, [], ◌∷◌, codes, text_eq, arith}
use hexagonal_auth_service.Errors.{refresh_token_reuse}
use hexagonal_auth_service.Exec.{ok, err}
use hexagonal_auth_service.Utils.{hash_token}
use hexagonal_auth_service.Services.{rotate}
use hexagonal_auth_service.RefreshToken
use hexagonal_auth_service.AccessToken.{issue}
use hexagonal_auth_service.Persistence.RefreshTokens
use hexagonal_auth_service.Cases.Inputs.{RefreshTokenInputDto, TokenPairDto}
use hexagonal_auth_service.World.{transaction}
use hexagonal_auth_service.World.Unchanged.{IsUnchanged}
use hexagonal_auth_service.Cases.Refresh
use hexagonal_auth_service.Cases.Refresh.Success.{IsRotation}
use hexagonal_auth_service.Cases.Refresh.Reuse.{
  rotation_once, execute-IsRotation, rotation_unlogged,
}
use hexagonal_auth_service.Tests.Demo.{demo, start}

abbrev request : RefreshTokenInputDto
request = record { refresh_token = 7 ∷ []; client_ip = none; user_agent = none; location = none }

abbrev pair : TokenPairDto
pair = record { access_token = 17 ∷ 32 ∷ 1 ∷ []; refresh_token = 13 ∷ 32 ∷ [] }

rotated : Refresh.execute request start ≡ (ok pair, (Refresh.execute request start).1)
unfolding Refresh.execute Refresh.handle transaction Refresh.refresh RefreshTokens.get_by_string
    RefreshToken.use_token rotate RefreshToken.create RefreshToken.mark_as_replaced_by
    RefreshToken.pull_domain_events RefreshTokens.save issue text_eq hash_token
rotated = refl

fresh : hash_token pair.refresh_token ≢ hash_token request.refresh_token
unfolding hash_token
fresh = ground arith

rotation_once_example :
    ((Refresh.execute request (Refresh.execute request start).1).0
      ≡ err (refresh_token_reuse (codes "Refresh token replaced by another token")))
    × IsUnchanged
        (Refresh.execute request start).1
        (Refresh.execute request (Refresh.execute request start).1).1
rotation_once_example = rotation_once request request start rotated refl fresh

execute-IsRotation_example : IsRotation (7 ∷ []) start pair (Refresh.execute request start).1
execute-IsRotation_example = execute-IsRotation request start rotated

rotation_unlogged_example :
    ((Refresh.execute request start).1.audit ≡ [])
    × ((Refresh.execute request start).1.notifications ≡ [])
rotation_unlogged_example = rotation_unlogged request start rotated
