-- ===== src/Http/Endpoints/Login.antt =====
-- What the login endpoint records of the client.
use hexagonal_auth_service.Base.{ℕ, ◌≡◌, ap, ◌∙◌, some, Text, ◌∷◌, ◌++◌, [], strip, arith}
use hexagonal_auth_service.Exec.{Result, ok, err}
use hexagonal_auth_service.Env.{Env}
use hexagonal_auth_service.Events.{refresh_token_created}
use hexagonal_auth_service.Events.Serializer.{serialize}
use hexagonal_auth_service.Schema.{RefreshTokenRow}
use hexagonal_auth_service.World.{World}
use hexagonal_auth_service.Cases.Inputs.{LoginUserInputDto, TokenPairDto}
use hexagonal_auth_service.Cases.Login
use hexagonal_auth_service.Cases.Login.Grant.{IsLogin, execute-IsLogin}
use hexagonal_auth_service.Http.Auth.{tokens, answer, domain_error, serve}
use hexagonal_auth_service.Http.Client.{
  HttpRequest, comma, get_client_ip, get_user_agent, get_location,
}
use hexagonal_auth_service.Http.Client.Split.{Avoids}
use hexagonal_auth_service.Http.Client.Address.{client_ip_chosen}
use hexagonal_auth_service.Http.Endpoints.{LoginUserModel, login, case_data, handle}

-- the pair was answered because the use case returned it
answer-tokens :
    (status : ℕ) (r : Result TokenPairDto × World) {pair : TokenPairDto} {w : World}
    → answer status tokens r ≡ (tokens pair, w)
    → r ≡ (ok pair, w)
unfolding answer domain_error
answer-tokens status (ok p, v) h = ground arith
answer-tokens status (err e, v) h = ground arith

module _ ⦃env : Env⦄ where
  -- the DTO of a login request
  abbrev pub login_input : HttpRequest → LoginUserModel → LoginUserInputDto
  login_input request body = record {
    email = body.email;
    password = body.password;
    client_ip = some (get_client_ip request);
    user_agent = some (get_user_agent request);
    location = get_location request;
  }

  login_endpoint-IsLogin :
      (request : HttpRequest) (body : LoginUserModel) (w : World) {pair : TokenPairDto} {w' : World}
      → handle request (login body) w ≡ (tokens pair, w')
      → IsLogin (login_input request body) w pair w'
  unfolding handle case_data serve
  login_endpoint-IsLogin request body w h =
      execute-IsLogin (login_input request body) w
        (answer-tokens 401 (Login.execute (login_input request body) w) h)

  -- The address that a login endpoint records is the client's choice: whatever stripped text without a
  -- comma the client puts first into X-Forwarded-For is the address in the event that a login
  -- answered with a pair pushes to the audit log, next to the request's agent and location and the id
  -- of the refresh token that it adds to the tables.
  pub login_address_chosen :
      (request : HttpRequest) (body : LoginUserModel) (ip rest : Text) (w : World)
      {pair : TokenPairDto} {w' : World}
      → Avoids comma ip
      → strip ip ≡ ip
      → handle (record request { x_forwarded_for = some (ip ++ comma ∷ rest) }) (login body) w
        ≡ (tokens pair, w')
      → (user_id : ℕ) × (new : RefreshTokenRow) × (time : ℕ) × (w'.db.refresh_tokens
          ≡ w.db.refresh_tokens ++ new ∷ [])
        × (w'.audit
            ≡ env.rpush w.audit (
                serialize (record {
                  timestamp = time;
                  payload =
                      refresh_token_created user_id new.id
                        (some ip)
                        (some (get_user_agent request))
                        (get_location request);
                })))
  unfolding get_user_agent get_location
  login_address_chosen request body ip rest w avoids stripped h =
      let forged = record request { x_forwarded_for = some (ip ++ comma ∷ rest) } in
      let a = login_endpoint-IsLogin forged body w h in
      let chosen = client_ip_chosen request ip rest avoids stripped in
      (
        a.user.id,
        a.new,
        a.time,
        ap (λ db. db.refresh_tokens) a.tables,
        a.logged
            ∙ ap
                (λ t. env.rpush w.audit (
                  serialize (record {
                    timestamp = a.time;
                    payload =
                        refresh_token_created a.user.id a.new.id (some t)
                          (some (get_user_agent request)) (get_location request);
                  })))
                chosen,
      )
