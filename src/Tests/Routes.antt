-- ===== src/Tests/Routes.antt =====
-- Requests at a concrete state.
use hexagonal_auth_service.Base.{◌≡◌, refl, none, [], ◌∷◌, Text, text_eq, codes}
use hexagonal_auth_service.World.{transaction}
use hexagonal_auth_service.World.Unchanged.{IsUnchanged}
use hexagonal_auth_service.Utils.{hash_token}
use hexagonal_auth_service.Persistence.RefreshTokens
use hexagonal_auth_service.Cases.Refresh
use hexagonal_auth_service.Http.Auth.{Request, refresh, serve, answer, domain_error, http_exception}
use hexagonal_auth_service.Http.Atomic.{translated-IsUnchanged}
use hexagonal_auth_service.Tests.Demo.{demo, start}

-- a refresh token that no row has, and the one of `start`
abbrev with_token : Text → Request
with_token t =
    refresh (record { refresh_token = t; client_ip = none; user_agent = none; location = none })

unknown_refused :
    (serve (with_token (6 ∷ [])) start).0 ≡ http_exception 400 (codes "Refresh token not found")
unfolding serve answer domain_error Refresh.execute Refresh.handle transaction Refresh.refresh
    RefreshTokens.get_by_string text_eq hash_token
unknown_refused = refl

translated-IsUnchanged_example : IsUnchanged start (serve (with_token (6 ∷ [])) start).1
translated-IsUnchanged_example =
    translated-IsUnchanged (with_token (6 ∷ [])) start 400 (codes "Refresh token not found")
      unknown_refused
