-- ===== src/Cases/Refresh/Refused.antt =====
-- cases/user/refresh_token.py: a refused rotation, the detection of reuse included.
use hexagonal_auth_service.Base.{◌≡◌, refl, List, Text, arith}
use hexagonal_auth_service.Errors.{Error, refresh_token_reuse}
use hexagonal_auth_service.Exec.{Result, ok, err}
use hexagonal_auth_service.Env.{Env}
use hexagonal_auth_service.Events.{Event}
use hexagonal_auth_service.World.{World, transaction}
use hexagonal_auth_service.World.Unchanged.{
  IsUnchanged, IsUnchanged-trans, IsQuiet-IsStable, transaction-IsUnchanged,
}
use hexagonal_auth_service.EventBus.Publisher.{publish}
use hexagonal_auth_service.EventBus.RedisQueue.{push}
use hexagonal_auth_service.Persistence.RefreshTokens
use hexagonal_auth_service.Cases.Inputs.{RefreshTokenInputDto, TokenPairDto}
use hexagonal_auth_service.Cases.Keeps.{Keeps-refresh}
use hexagonal_auth_service.Cases.Refresh

module _ ⦃env : Env⦄ (i : RefreshTokenInputDto) where
  -- the events of the handler are no `DomainEvent`s, and the Redis queue takes no others
  reuse_branch-IsUnchanged :
      (m : Text) (w : World) → IsUnchanged w (Refresh.handle i (err (refresh_token_reuse m)) w).1
  unfolding Refresh.handle Refresh.detect_reuse transaction RefreshTokens.get_by_string publish push
  reuse_branch-IsUnchanged m w = ground arith

  handle-IsUnchanged :
      (e c : Error) (w : World)
      → (Refresh.handle i (err e) w).0 ≡ err c
      → IsUnchanged w (Refresh.handle i (err e) w).1
  unfolding Refresh.handle
  handle-IsUnchanged (refresh_token_reuse m) c w h = reuse_branch-IsUnchanged m w
  handle-IsUnchanged _ c w h = record { db = refl; audit = refl; notifications = refl }

  pub refresh-IsUnchanged :
      (w : World) (e : Error)
      → (Refresh.execute i w).0 ≡ err e
      → IsUnchanged w (Refresh.execute i w).1
  unfolding Refresh.execute
  refresh-IsUnchanged w e h =
      split (transaction (Refresh.refresh i) w)
        (transaction-IsUnchanged (Refresh.refresh i) w (Keeps-refresh (IsQuiet-IsStable w) i)) h
    where
      split :
          (r : Result (TokenPairDto × List Event) × World)
          → ((c : Error) → r.0 ≡ err c → IsUnchanged w r.1)
          → (Refresh.handle i r.0 r.1).0 ≡ err e
          → IsUnchanged w (Refresh.handle i r.0 r.1).1
      split (ok (pair, events), w') u k = cc
      split (err c, w') u k = IsUnchanged-trans (u c refl) (handle-IsUnchanged c e w' k)
