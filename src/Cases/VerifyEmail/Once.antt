-- ===== src/Cases/VerifyEmail/Once.antt =====
-- cases/user/verify_email.py: a second request with the same token.
use hexagonal_auth_service.Base.{suc, ◌+◌, ◌≡◌, ◌≢◌, refl, sym, ◌∙◌, true, List, [], ◌∷◌}
use hexagonal_auth_service.Errors.{Error}
use hexagonal_auth_service.Exec.{ok, err}
use hexagonal_auth_service.Env.{Env}
use hexagonal_auth_service.Events.{Event, user_email_verified}
use hexagonal_auth_service.Schema.{OneTimeTokenRow}
use hexagonal_auth_service.World.{World}
use hexagonal_auth_service.World.Unchanged.{IsUnchanged}
use hexagonal_auth_service.Persistence.Users
use hexagonal_auth_service.Persistence.OneTimeTokens
use hexagonal_auth_service.Cases.Refused.{verify_email-IsUnchanged}
use hexagonal_auth_service.Cases.Inputs.{VerifyEmailInputDto}
use hexagonal_auth_service.Cases.VerifyEmail.{verify_user, execute}
use hexagonal_auth_service.Cases.VerifyEmail.Success.{verify-live, verify-saves, verify-finds}
use hexagonal_auth_service.OneTimeToken
use hexagonal_auth_service.Cases.Rows.{
  hits, used_token, saves-ok, hits-used, publishes-ok, publishes-refused, db-publish,
}

module _ ⦃env : Env⦄ where
  -- after a verification the hash of the token finds its used row, and nothing else
  verify-hits :
      (i : VerifyEmailInputDto) (w : World) {events : List Event} {v : World}
      → verify_user i w ≡ (ok events, v)
      → (r : OneTimeTokenRow) × (hits i.one_time_token v ≡ r ∷ []) × (r.used ≡ true)
  unfolding Users.save OneTimeTokens.save Users.orm2domain OneTimeTokens.set_columns
      OneTimeTokens.with_purpose
  verify-hits i w {events} {v} h =
      let (r, u, e, f) = verify-finds i w h in
      let (purpose, unused, alive, unverified) = verify-live i w r u e f h in
      let (same, one, alone, world) =
        saves-ok (record (Users.orm2domain u) { is_email_verified = true })
          (used_token OneTimeToken.verify_email r) u.version r.version
          (record {
            timestamp = env.clock (suc w.calls);
            payload = user_email_verified u.id u.email;
          }
            ∷ [])
          (record w { calls = suc (suc w.calls) })
          (sym (verify-saves i w r u e f purpose unused alive unverified) ∙ h) in
      (
        OneTimeTokens.set_columns (used_token OneTimeToken.verify_email r) (r.version + 1) r,
        rw world (hits-used i.one_time_token OneTimeToken.verify_email r w e alone),
        refl,
      )

  used-refused :
      (j : VerifyEmailInputDto) (w : World) (r : OneTimeTokenRow) {events : List Event} {v : World}
      → hits j.one_time_token w ≡ r ∷ []
      → r.used ≡ true
      → verify_user j w ≢ (ok events, v)
  used-refused j w r e used h =
      let (r', u, e', f) = verify-finds j w h in
      let (purpose, unused, alive, unverified) = verify-live j w r' u e' f h in cc

  -- After a verification of an address that returned, a second request with the same token raises an
  -- exception and changes no table, no log and no notification.
  pub verification_once :
      (i j : VerifyEmailInputDto) (w : World) {w' : World}
      → execute i w ≡ (ok tt, w')
      → j.one_time_token ≡ i.one_time_token
      → (e : Error) × ((execute j w').0 ≡ err e) × IsUnchanged w' (execute j w').1
  unfolding execute
  verification_once i j w {w'} h same =
      let (events, v, inner, outer) = publishes-ok (verify_user i) w h in
      let (r, e, used) = verify-hits i w inner in
      let found : hits j.one_time_token w' ≡ r ∷ [] = rw (same, outer, db-publish events v) e in
      let (c, k) = publishes-refused (verify_user j) w' (λ es x. used-refused j w' r found used) in
      (c, k, verify_email-IsUnchanged w' c j k)
