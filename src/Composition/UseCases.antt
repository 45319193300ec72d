-- ===== src/Composition/UseCases.antt =====
-- routers/dependencies/cases.py, and the signatures of the use cases: how a factory of a use case is
-- made of the annotations of its `__init__`.
pub mod Wiring
pub mod Sessions
use hexagonal_auth_service.Base.{
  Option, none, some, List, [], ◌∷◌, map, Text, codes, text_eq, if◌then◌else◌,
}
use hexagonal_auth_service.Errors.{value_error}
use hexagonal_auth_service.Exec.{Result, ok, err}
use hexagonal_auth_service.Composition.Nexus.{
  Provider, get_config, get_event_publisher, get_event_queue, get_access_token_issuer,
  get_access_token_verifier, get_transaction, get_user_repo, get_ott_repo, get_refresh_token_repo,
  Object,
}

-- the annotations: the ports, and any other class by its name
pub data Hint : Type 0 where
  transaction_port user_repository_port one_time_token_repository_port : Hint
  refresh_token_repository_port config_port event_queue_port event_publisher_port : Hint
  access_token_issuer_port access_token_verifier_port : Hint
  other_type : Text → Hint

-- `DEPENDENCY_PROVIDERS.get(param_type)`
unfoldable pub dependency_providers : Hint → Option Provider
dependency_providers transaction_port = some get_transaction
dependency_providers user_repository_port = some get_user_repo
dependency_providers one_time_token_repository_port = some get_ott_repo
dependency_providers refresh_token_repository_port = some get_refresh_token_repo
dependency_providers config_port = some get_config
dependency_providers event_queue_port = some get_event_queue
dependency_providers event_publisher_port = some get_event_publisher
dependency_providers access_token_issuer_port = some get_access_token_issuer
dependency_providers access_token_verifier_port = some get_access_token_verifier
dependency_providers (other_type name) = none

-- a parameter of `__init__` with its type hint, if it has one
pub record Param : Type 0 where
  pub name : Text
  pub hint : Option Hint

-- `Parameter(name=..., default=Depends(provider), annotation=...)`
pub record FactoryParam : Type 0 where
  pub name : Text
  pub provider : Provider
  pub annotation : Hint

-- `if provider is None: raise ValueError`
unfoldable pub bound_to : Text → Hint → Option Provider → Result FactoryParam
bound_to name hint none = err value_error
bound_to name hint (some p) = ok (record { name = name; provider = p; annotation = hint })

-- `if param_type is None: raise ValueError`, and the rest of the loop's body
unfoldable pub factory_param : Text → Option Hint → Result FactoryParam
unfolding bound_to dependency_providers
factory_param name none = err value_error
factory_param name (some hint) = bound_to name hint (dependency_providers hint)

-- what the loop has collected, unless one of its steps raised
abbrev pub prepend : Result FactoryParam → Result (List FactoryParam) → Result (List FactoryParam)
prepend (err e) rest = err e
prepend (ok p) (err e) = err e
prepend (ok p) (ok ps) = ok (p ∷ ps)

-- `build_use_case`: the signature of the factory that it makes
unfoldable pub build_use_case : List Param → Result (List FactoryParam)
unfolding factory_param
build_use_case [] = ok []
build_use_case (p ∷ ps) =
    let rest = build_use_case ps in
    if text_eq p.name (codes "self") then rest else prepend (factory_param p.name p.hint) rest

-- `factory(**kwargs)`: the use case holds what it is given, by name
unfoldable pub factory : List FactoryParam → (Provider → Object) → List (Text × Object)
factory params value = map (λ (p : FactoryParam). (p.name, value p.provider)) params

pub data UseCase : Type 0 where
  register verify_email login refresh_token revoke_token : UseCase
  change_password password_recover_request password_recover : UseCase

abbrev port : Text → Hint → Param
port name hint = record { name = name; hint = some hint }

abbrev pub self_param : Param
self_param = record { name = codes "self"; hint = none }

abbrev pub tx : Param
tx = port (codes "tx") transaction_port

abbrev user_repo : Param
user_repo = port (codes "user_repo") user_repository_port

abbrev ott_repo : Param
ott_repo = port (codes "ott_repo") one_time_token_repository_port

abbrev refresh_token_repo : Param
refresh_token_repo = port (codes "refresh_token_repo") refresh_token_repository_port

abbrev config : Param
config = port (codes "config") config_port

abbrev event_publisher : Param
event_publisher = port (codes "event_publisher") event_publisher_port

abbrev access_token_issuer : Param
access_token_issuer = port (codes "access_token_issuer") access_token_issuer_port

abbrev access_token_verifier : Param
access_token_verifier = port (codes "access_token_verifier") access_token_verifier_port

-- the parameters of each `__init__`
abbrev pub register_init : List Param
register_init = self_param ∷ tx ∷ user_repo ∷ ott_repo ∷ config ∷ event_publisher ∷ []

abbrev pub verify_email_init : List Param
verify_email_init = self_param ∷ tx ∷ user_repo ∷ ott_repo ∷ event_publisher ∷ []

abbrev pub login_init : List Param
login_init =
    self_param ∷ tx ∷ user_repo ∷ refresh_token_repo ∷ config ∷ event_publisher
    ∷ access_token_issuer ∷ []

abbrev pub refresh_token_init : List Param
refresh_token_init =
    self_param ∷ tx ∷ refresh_token_repo ∷ config ∷ event_publisher ∷ access_token_issuer ∷ []

abbrev pub revoke_token_init : List Param
revoke_token_init = self_param ∷ tx ∷ refresh_token_repo ∷ config ∷ event_publisher ∷ []

abbrev pub change_password_init : List Param
change_password_init = self_param ∷ tx ∷ user_repo ∷ access_token_verifier ∷ event_publisher ∷ []

abbrev pub password_recover_request_init : List Param
password_recover_request_init =
    self_param ∷ tx ∷ user_repo ∷ ott_repo ∷ config ∷ event_publisher ∷ []

abbrev pub password_recover_init : List Param
password_recover_init = self_param ∷ tx ∷ user_repo ∷ ott_repo ∷ event_publisher ∷ []

-- `signature(use_case_class.__init__)`
unfoldable pub init : UseCase → List Param
init register = register_init
init verify_email = verify_email_init
init login = login_init
init refresh_token = refresh_token_init
init revoke_token = revoke_token_init
init change_password = change_password_init
init password_recover_request = password_recover_request_init
init password_recover = password_recover_init
