-- ===== src/Cases/Login/Access.antt =====
-- cases/user/login.py and access_token: what the access token of a login is good for.
use hexagonal_auth_service.Base.{
  ◌+◌, ◌≤◌, ◌≡◌, sym, subst, ℕ, [], ◌∷◌, codes, ltb, if◌then◌else◌, ◌∙◌,
}
use hexagonal_auth_service.Errors.{access_token_expired}
use hexagonal_auth_service.Exec.{ok, err}
use hexagonal_auth_service.Env.{Env}
use hexagonal_auth_service.Schema.{UserRow}
use hexagonal_auth_service.World.{World}
use hexagonal_auth_service.AccessToken.{issue, verify}
use hexagonal_auth_service.AccessToken.RoundTrip.{IsSigning, whole_seconds, verify-issue}
use hexagonal_auth_service.Cases.Inputs.{LoginUserInputDto, TokenPairDto}
use hexagonal_auth_service.Cases.Login.{execute}
use hexagonal_auth_service.Cases.Login.Success.{owners}
use hexagonal_auth_service.Cases.Login.Grant.{execute-IsLogin}

module _ ⦃env : Env⦄ where
  -- The access token of the pair that a login returns verifies, at any time that is not before the
  -- login's first reading of the clock: to the id of the user with the given address, before the whole
  -- second in which the configured lifetime after that reading ends, and from then on with
  -- `AccessTokenExpired`. What PyJWT documents of "iat" and "exp" in whole seconds is a hypothesis.
  pub login_verified :
      IsSigning
      → (i : LoginUserInputDto) (w : World) (u : UserRow) (k : ℕ) {w' : World} {pair : TokenPairDto}
      → owners i.email w ≡ u ∷ []
      → execute i w ≡ (ok pair, w')
      → env.clock w.calls ≤ env.clock k
      → (verify pair.access_token k).0 ≡ (
          if ltb (env.clock k) (whole_seconds (env.clock w.calls + env.access_token_exp))
          then ok u.id
          else err (access_token_expired (codes "Access token expired")))
  login_verified law i w u k {w'} {pair} found h late =
      let a = execute-IsLogin i w h in
      let user : a.user ≡ u = let e : a.user ∷ [] ≡ u ∷ [] = sym a.found ∙ found in cc in
      let issued =
        subst (λ (x : UserRow). (issue x.id env.access_token_exp w.calls).0 ≡ ok pair.access_token)
          user a.access in
      verify-issue law u.id env.access_token_exp w.calls k pair.access_token issued late
