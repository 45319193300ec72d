-- ===== src/Cases/Refresh/Reuse.antt =====
-- cases/user/refresh_token.py: a second request with the same token.
use hexagonal_auth_service.Base.{
  ℕ, ◌≡◌, ◌≢◌, refl, ap, subst, ◌∙◌, Bool, some, List, [], ◌∷◌, ◌++◌, Text, codes, text_eq,
  text_eq_iff, filter, filter-append, arith,
}
use hexagonal_auth_service.Errors.{refresh_token_reuse}
use hexagonal_auth_service.Exec.{Result, ok, err}
use hexagonal_auth_service.Env.{Env}
use hexagonal_auth_service.Events.{Event}
use hexagonal_auth_service.Utils.{hash_token}
use hexagonal_auth_service.Schema.{RefreshTokenRow}
use hexagonal_auth_service.World.{World, transaction, finish}
use hexagonal_auth_service.World.Unchanged.{IsUnchanged, IsQuiet, IsQuiet-IsStable}
use hexagonal_auth_service.RefreshToken
use hexagonal_auth_service.Persistence.Sql.{scalar_one_or_none, update_where}
use hexagonal_auth_service.Persistence.Tables.{filter-update_where, filter-head}
use hexagonal_auth_service.Persistence.RefreshTokens
use hexagonal_auth_service.EventBus.Publisher.{publish}
use hexagonal_auth_service.Cases.Inputs.{RefreshTokenInputDto, TokenPairDto}
use hexagonal_auth_service.Cases.Keeps.{Keeps-refresh}
use hexagonal_auth_service.Cases.Refresh
use hexagonal_auth_service.Cases.Refresh.Success.{
  hits, same_version, replaced, IsRotation, refresh-ok,
}
use hexagonal_auth_service.Cases.Refresh.Refused.{refresh-IsUnchanged}

module _ ⦃env : Env⦄ where
  -- the only way to a pair is the block of the transaction
  pub execute-ok :
      (i : RefreshTokenInputDto) (w : World) {pair : TokenPairDto} {w' : World}
      → Refresh.execute i w ≡ (ok pair, w')
      → (events : List Event) × (Refresh.refresh i w ≡ (ok (pair, events), w'))
  unfolding Refresh.execute Refresh.handle transaction
  execute-ok i w h = split (Refresh.refresh i w) h
    where
      split :
          {pair : TokenPairDto} {w' : World} (r : Result (TokenPairDto × List Event) × World)
          → Refresh.handle i (finish w.db r).0 (finish w.db r).1 ≡ (ok pair, w')
          → (events : List Event) × (r ≡ (ok (pair, events), w'))
      split (ok (p, events), w₁) k = (events, cc)
      split (err (refresh_token_reuse m), w₁) k = ground arith
      split (err _, w₁) k = cc

  -- After a rotation the hash of the old token finds the replaced row, and nothing else.
  rotation-hits :
      {t : Text} {w w' : World} {pair : TokenPairDto} (h : IsRotation t w pair w')
      → hash_token pair.refresh_token ≢ hash_token t
      → hits t w' ≡ replaced h.old h.time h.new.id h.old ∷ []
  rotation-hits {t} {w} {w'} h fresh =
      ap (λ db. filter q db.refresh_tokens) h.tables
      ∙ filter-append q
          (update_where (same_version h.old) (replaced h.old h.time h.new.id) w.db.refresh_tokens)
          (h.new ∷ [])
      ∙ ap (λ rows. rows ++ filter q (h.new ∷ []))
          (filter-update_where (same_version h.old) q (replaced h.old h.time h.new.id) h.old
            w.db.refresh_tokens h.found (ground arith) h.alone
            (filter-head q h.old [] w.db.refresh_tokens h.found))
      ∙ ground (arith, text_eq_iff h.new.token_hash (hash_token t), h.new_hash, fresh)
    where
      q : RefreshTokenRow → Bool
      q r = text_eq r.token_hash (hash_token t)

  refresh-replaced :
      (j : RefreshTokenInputDto) (w : World) (r : RefreshTokenRow) (n : ℕ)
      → hits j.refresh_token w ≡ r ∷ []
      → r.replaced_by_id ≡ some n
      → (Refresh.execute j w).0
        ≡ err (refresh_token_reuse (codes "Refresh token replaced by another token"))
  unfolding Refresh.execute Refresh.handle Refresh.refresh Refresh.detect_reuse transaction
      RefreshTokens.get_by_string RefreshToken.use_token publish
  refresh-replaced j w r n e k = rw (e, scalar_one_or_none) (rw k (rw (e, scalar_one_or_none) refl))

  -- After a rotation of a token, a second request with the same token, from whatever client, raises
  -- `RefreshTokenReuse` and changes no table, no log and no notification, if the new token's hash is
  -- another one.
  pub rotation_once :
      (i j : RefreshTokenInputDto) (w : World) {w' : World} {pair : TokenPairDto}
      → Refresh.execute i w ≡ (ok pair, w')
      → j.refresh_token ≡ i.refresh_token
      → hash_token pair.refresh_token ≢ hash_token i.refresh_token
      → ((Refresh.execute j w').0
          ≡ err (refresh_token_reuse (codes "Refresh token replaced by another token")))
        × IsUnchanged w' (Refresh.execute j w').1
  rotation_once i j w {w'} h same fresh =
      let rotation = refresh-ok i w (execute-ok i w h).1 in
      let found = rotation-hits rotation fresh in
      let refused =
        refresh-replaced j w' (replaced rotation.old rotation.time rotation.new.id rotation.old)
          rotation.new.id (rw same found) refl in
      (refused, refresh-IsUnchanged j w' _ refused)

  -- A rotation that returns a pair found the token's row, the only one with its hash, neither revoked
  -- nor replaced nor expired. It set the revocation time and the successor in that row, raised its
  -- version by one, and added a row of the same user with the hash of the returned refresh token, neither
  -- revoked nor replaced, created in this run and expiring the configured lifetime after that; no other
  -- table row changed. The returned access token was issued for the same user.
  pub execute-IsRotation :
      (i : RefreshTokenInputDto) (w : World) {w' : World} {pair : TokenPairDto}
      → Refresh.execute i w ≡ (ok pair, w')
      → IsRotation i.refresh_token w pair w'
  execute-IsRotation i w h = refresh-ok i w (execute-ok i w h).1

  -- A rotation that returns a pair publishes nothing: the audit log and the notifications stay as they
  -- were, though the rotation revoked one token and created another.
  pub rotation_unlogged :
      (i : RefreshTokenInputDto) (w : World) {w' : World} {pair : TokenPairDto}
      → Refresh.execute i w ≡ (ok pair, w')
      → (w'.audit ≡ w.audit) × (w'.notifications ≡ w.notifications)
  rotation_unlogged i w {w'} h =
      let quiet = (Keeps-refresh (IsQuiet-IsStable w) i).at w (refl, refl) in
      subst (IsQuiet w)
        (ap (λ (r : Result (TokenPairDto × List Event) × World). r.1) (execute-ok i w h).1) quiet
