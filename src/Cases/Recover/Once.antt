-- ===== src/Cases/Recover/Once.antt =====
-- cases/user/password_recover.py: a second request with the same token.
use hexagonal_auth_service.Base.{◌≡◌, ◌≢◌, List, ◌+◌, ◌∷◌, [], true, refl}
use hexagonal_auth_service.Errors.{Error}
use hexagonal_auth_service.Exec.{ok, err}
use hexagonal_auth_service.Env.{Env}
use hexagonal_auth_service.Events.{Event}
use hexagonal_auth_service.Schema.{OneTimeTokenRow}
use hexagonal_auth_service.World.{World}
use hexagonal_auth_service.World.Unchanged.{IsUnchanged}
use hexagonal_auth_service.Cases.Refused.{recover-IsUnchanged}
use hexagonal_auth_service.Cases.Inputs.{PasswordRecoverInputDto}
use hexagonal_auth_service.Cases.Rows.{hits, publishes-refused}
use hexagonal_auth_service.Cases.Recover.{recover_password, execute}
use hexagonal_auth_service.Cases.Recover.Success.{recover-finds, recover-live}
use hexagonal_auth_service.Cases.Recover.Grant.{execute-IsRecovery}

module _ ⦃env : Env⦄ where
  used-refused :
      (j : PasswordRecoverInputDto) (w : World) (r : OneTimeTokenRow) {events : List Event}
      {v : World}
      → hits j.password_recover_token w ≡ r ∷ []
      → r.used ≡ true
      → recover_password j w ≢ (ok events, v)
  used-refused j w r e used h =
      let (r', u, e', f) = recover-finds j w h in
      let (_, unused, _, _, _, _) = recover-live j w r' u e' f h in cc

  -- After a recovery of a password that returned, a second request with the same token, whatever its
  -- password, raises an exception and changes no table, no log and no notification.
  pub recovery_once :
      (i j : PasswordRecoverInputDto) (w : World) {w' : World}
      → execute i w ≡ (ok tt, w')
      → j.password_recover_token ≡ i.password_recover_token
      → (e : Error) × ((execute j w').0 ≡ err e) × IsUnchanged w' (execute j w').1
  unfolding execute
  recovery_once i j w {w'} h same =
      let a = execute-IsRecovery i w h in
      let (c, k) = publishes-refused (recover_password j) w' (λ es x.
        used-refused j w' (record a.token { used = true; version = a.token.version + 1 })
          (rw same a.spent) refl) in
      (c, k, recover-IsUnchanged w' c j k)
