-- ===== src/Composition/Nexus.antt =====
-- app/adapters/nexus.py: the providers, and what they keep for the process. The Redis client and the
-- two queues are made once, when the module is loaded.
use hexagonal_auth_service.Base.{ℕ, suc, Option, none, some, List, [], ◌∷◌, Text}
use hexagonal_auth_service.Composition.Settings.{Settings}

pub data Provider : Type 0 where
  get_config get_access_token_issuer get_access_token_verifier : Provider
  get_redis_client get_event_queue get_notification_queue get_event_publisher : Provider
  get_session get_transaction get_user_repo get_ott_repo get_refresh_token_repo : Provider

-- what the parameters of a provider depend on, by their `Depends(...)`
unfoldable pub parameters : Provider → List Provider
parameters get_event_publisher = get_event_queue ∷ get_notification_queue ∷ []
parameters get_transaction = get_session ∷ []
parameters get_user_repo = get_session ∷ []
parameters get_ott_repo = get_session ∷ []
parameters get_refresh_token_repo = get_session ∷ []
parameters _ = []

-- What a provider returns, with what it was made from. A session is the number of its making.
pub data Object : Type 0 where
  config redis_client event_queue notification_queue : Object
  access_token_issuer access_token_verifier : (secret algorithm : Text) → Object
  event_publisher : (queue notifications : Object) → Object
  session : ℕ → Object
  transaction user_repo ott_repo refresh_token_repo : (session : Object) → Object

-- the module's variables, and how many sessions `async_session_factory` has made
pub record Nexus : Type 0 where
  pub issuer : Option Object
  pub verifier : Option Object
  pub sessions : ℕ

-- `if not _x: _x = made`, and `return _x`
unfoldable pub kept_or : Option Object → Object → Object
kept_or none made = made
kept_or (some kept) made = kept

-- the providers that only make an object of their parameters; another number of these is a `TypeError`
unfoldable pub made_of : Provider → List Object → Option Object
made_of get_config [] = some config
made_of get_redis_client [] = some redis_client
made_of get_event_queue [] = some event_queue
made_of get_notification_queue [] = some notification_queue
made_of get_event_publisher (queue ∷ notifications ∷ []) =
    some (event_publisher queue notifications)
made_of get_transaction (s ∷ []) = some (transaction s)
made_of get_user_repo (s ∷ []) = some (user_repo s)
made_of get_ott_repo (s ∷ []) = some (ott_repo s)
made_of get_refresh_token_repo (s ∷ []) = some (refresh_token_repo s)
made_of _ _ = none

module _ (settings : Settings) where
  -- a call of a provider with the values of its parameters
  unfoldable pub provide : Provider → List Object → Nexus → Option Object × Nexus
  unfolding kept_or made_of
  provide get_access_token_issuer [] nexus =
      let issuer =
        kept_or nexus.issuer (access_token_issuer settings.jwt_secret settings.jwt_algorithm) in
      (some issuer, record nexus { issuer = some issuer })
  provide get_access_token_verifier [] nexus =
      let verifier =
        kept_or nexus.verifier (access_token_verifier settings.jwt_secret settings.jwt_algorithm) in
      (some verifier, record nexus { verifier = some verifier })
  provide get_session [] nexus =
      (some (session nexus.sessions), record nexus { sessions = suc nexus.sessions })
  provide provider values nexus = (made_of provider values, nexus)
