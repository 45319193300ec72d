-- ===== src/Tests/Wirings.antt =====
-- The composition of the service with concrete settings.
use hexagonal_auth_service.Base.{
  ℕ, ◌≤◌, ◌<◌, ◌≡◌, refl, none, some, List, map, codes, text_eq, arith,
}
use hexagonal_auth_service.Exec.{ok}
use hexagonal_auth_service.Composition.Settings.{Settings, default_settings}
use hexagonal_auth_service.Composition.Nexus
use hexagonal_auth_service.Composition.Nexus.{
  Provider, Object, Nexus, parameters, provide, made_of, kept_or,
}
use hexagonal_auth_service.Composition.UseCases.{
  FactoryParam, login, init, build_use_case, factory, factory_param, bound_to, dependency_providers,
}
use hexagonal_auth_service.Composition.UseCases.Sessions.{
  Reachable, loaded, IsRequest, object, use_case_objects,
}
use hexagonal_auth_service.Tests.Demo.{demo}

abbrev local : Settings
local = default_settings (codes "auth") (codes "ann") (codes "secret") (codes "localhost") 5432

login_built : (ps : List FactoryParam) × (build_use_case (init login) ≡ ok ps)
unfolding build_use_case init factory_param bound_to dependency_providers text_eq codes
login_built = (_, refl)

abbrev fresh : Nexus
fresh = record { issuer = none; verifier = none; sessions = 0 }

abbrev served : Nexus
served = record { issuer = none; verifier = none; sessions = 1 }

-- the first request, each of whose providers is called in a fresh process
first-IsRequest : (ps : List FactoryParam) → IsRequest local ps fresh served (object local 0)
unfolding provide made_of kept_or parameters object
first-IsRequest ps = record { called = λ p needs. called p }
  where
    called :
        (p : Provider)
        → (at next : Nexus) × Reachable local at
          × (0 ≤ at.sessions)
          × (next.sessions ≤ 1)
          × (provide local p (map (object local 0) (parameters p)) at
              ≡ (some (object local 0 p), next))
    called Nexus.get_config = (fresh, _, loaded, omega arith, omega arith, refl)
    called Nexus.get_access_token_issuer = (fresh, _, loaded, omega arith, omega arith, refl)
    called Nexus.get_access_token_verifier = (fresh, _, loaded, omega arith, omega arith, refl)
    called Nexus.get_redis_client = (fresh, _, loaded, omega arith, omega arith, refl)
    called Nexus.get_event_queue = (fresh, _, loaded, omega arith, omega arith, refl)
    called Nexus.get_notification_queue = (fresh, _, loaded, omega arith, omega arith, refl)
    called Nexus.get_event_publisher = (fresh, _, loaded, omega arith, omega arith, refl)
    called Nexus.get_session = (fresh, _, loaded, omega arith, omega arith, refl)
    called Nexus.get_transaction = (fresh, _, loaded, omega arith, omega arith, refl)
    called Nexus.get_user_repo = (fresh, _, loaded, omega arith, omega arith, refl)
    called Nexus.get_ott_repo = (fresh, _, loaded, omega arith, omega arith, refl)
    called Nexus.get_refresh_token_repo = (fresh, _, loaded, omega arith, omega arith, refl)

use_case_objects_example :
    (n : ℕ) × (0 ≤ n)
    × (n < 1)
    × (factory login_built.0 (object local 0)
        ≡ map (λ (f : FactoryParam). (f.name, object local n f.provider)) login_built.0)
use_case_objects_example =
    use_case_objects local login fresh served (object local 0) login_built.1
      (first-IsRequest login_built.0)
