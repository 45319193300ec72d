-- ===== src/Http/Atomic.antt =====
-- routers/auth.py: what a refused request leaves behind.
use hexagonal_auth_service.Base.{ℕ, ◌≡◌, refl, ap, Bool, true, false, Text}
use hexagonal_auth_service.Errors.{Error}
use hexagonal_auth_service.Exec.{Result, ok, err}
use hexagonal_auth_service.Env.{Env}
use hexagonal_auth_service.World.{World}
use hexagonal_auth_service.World.Unchanged.{IsUnchanged}
use hexagonal_auth_service.Cases.Refused.{
  register-IsUnchanged, verify_email-IsUnchanged, login-IsUnchanged, revoke-IsUnchanged,
  change_password-IsUnchanged, recover_request-IsUnchanged, recover-IsUnchanged,
}
use hexagonal_auth_service.Cases.Refresh.Refused.{refresh-IsUnchanged}
use hexagonal_auth_service.Cases.Login
use hexagonal_auth_service.Http.Auth.{
  Response, null, tokens, http_exception, internal_server_error, Request, register, verify_email,
  token, refresh, revoke, password_change, password_recover_request, password_recover,
  swagger_token, answer, answer_silently, form_input, serve,
}

-- a response other than 200
abbrev is_refusal : Response → Bool
is_refusal null = false
is_refusal (tokens pair) = false
is_refusal (http_exception status_code detail) = true
is_refusal internal_server_error = true

answer-IsUnchanged :
    {A : Type 0} (n : _) (respond : A → Response) (w : World) (r : Result A × World)
    → ((a : A) → is_refusal (respond a) ≡ false)
    → ((e : Error) → r.0 ≡ err e → IsUnchanged w r.1)
    → is_refusal (answer n respond r).0 ≡ true
    → IsUnchanged w (answer n respond r).1
unfolding answer
answer-IsUnchanged n respond w (ok a, w') granted refused h = cc (granted a)
answer-IsUnchanged n respond w (err e, w') granted refused h = refused e refl

answer_silently-IsUnchanged :
    (w : World) (r : Result (Unit {0}) × World)
    → ((e : Error) → r.0 ≡ err e → IsUnchanged w r.1)
    → is_refusal (answer_silently r).0 ≡ true
    → IsUnchanged w (answer_silently r).1
unfolding answer_silently
answer_silently-IsUnchanged w (ok a, w') refused h = cc
answer_silently-IsUnchanged w (err e, w') refused h = refused e refl

-- a refused request, where Redis takes every event that is pushed
pub serve-IsUnchanged :
    ⦃env : Env⦄ (request : Request) (w : World)
    → is_refusal (serve request w).0 ≡ true
    → IsUnchanged w (serve request w).1
unfolding serve
serve-IsUnchanged (register i) w =
    answer-IsUnchanged _ _ w _ (λ a. refl) (λ e. register-IsUnchanged w e i)
serve-IsUnchanged (verify_email i) w =
    answer-IsUnchanged _ _ w _ (λ a. refl) (λ e. verify_email-IsUnchanged w e i)
serve-IsUnchanged (token i) w =
    answer-IsUnchanged _ _ w _ (λ a. refl) (λ e. login-IsUnchanged w e i)
serve-IsUnchanged (refresh i) w = answer-IsUnchanged _ _ w _ (λ a. refl) (refresh-IsUnchanged i w)
serve-IsUnchanged (revoke i) w =
    answer-IsUnchanged _ _ w _ (λ a. refl) (λ e. revoke-IsUnchanged w e i)
serve-IsUnchanged (password_change i) w =
    answer-IsUnchanged _ _ w _ (λ a. refl) (λ e. change_password-IsUnchanged w e i)
serve-IsUnchanged (password_recover_request i) w =
    answer_silently-IsUnchanged w _ (λ e. recover_request-IsUnchanged w e i)
serve-IsUnchanged (password_recover i) w =
    answer-IsUnchanged _ _ w _ (λ a. refl) (λ e. recover-IsUnchanged w e i)
serve-IsUnchanged (swagger_token u p c a l) w =
    answer-IsUnchanged 401 tokens w (Login.execute (form_input u p c a l) w) (λ x. refl)
      (λ e. login-IsUnchanged w e (form_input u p c a l))

-- Whatever the request and the state: if the endpoint answers with the `HTTPException` that it makes of
-- a `BaseError`, of status 400 or 401, then the tables, the audit log and the notifications are those
-- from before the request. A response 500 is not meant, since Redis may fail after the commit, nor is a
-- request for a recovery, which answers a `BaseError` with 200.
pub translated-IsUnchanged :
    ⦃env : Env⦄ (request : Request) (w : World) (status_code : ℕ) (detail : Text)
    → (serve request w).0 ≡ http_exception status_code detail
    → IsUnchanged w (serve request w).1
translated-IsUnchanged request w status_code detail h =
    serve-IsUnchanged request w (ap is_refusal h)
