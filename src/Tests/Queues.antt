-- ===== src/Tests/Queues.antt =====
-- Queues, access tokens and risks at concrete inputs.
use hexagonal_auth_service.Base.{
  ◌≡◌, refl, ℕ, some, none, true, false, List, [], ◌∷◌, ◌++◌, map, filter, Text, codes,
}
use hexagonal_auth_service.Base.Int.{pos}
use hexagonal_auth_service.Events.{
  Event, Payload, user_created, user_deactivated, user_email_verification_requested,
  refresh_token_reuse_detected,
}
use hexagonal_auth_service.Events.Kinds.{is_domain, is_notification}
use hexagonal_auth_service.Events.Serializer.{serialize}
use hexagonal_auth_service.EventBus.RedisQueue.Refines.{IsRedis, AllDomain}
use hexagonal_auth_service.EventBus.Publisher.{publish}
use hexagonal_auth_service.Ports.Adapters.{in_memory_event_queue, redis_event_queue}
use hexagonal_auth_service.Ports.Queues.{
  QueueCall, push, get, answers, domain_calls, answers-refines,
}
use hexagonal_auth_service.EventBus.Publisher.Routing.{publish-routes}
use hexagonal_auth_service.RiskPolicy.{assess_risk}
use hexagonal_auth_service.Tests.Demo.{demo, start}
use hexagonal_auth_service.Tests.Texts.{demo-IsReadBack}

pub demo-IsRedis : IsRedis
demo-IsRedis = record {
  rpush_last = λ items item. refl;
  llen_length = λ items. refl;
  lrange_between = λ items a b. refl;
}

abbrev at_four : Payload → Event
at_four p = record { timestamp = 4; payload = p }

abbrev pub logged : List Event
logged = at_four (user_created 1 (codes "a@b.c")) ∷ at_four (user_deactivated 1) ∷ []

pub logged-AllDomain : AllDomain logged
unfolding is_domain
logged-AllDomain = (refl, (refl, tt))

abbrev mixed : List Event
mixed =
    at_four (user_created 1 (codes "a@b.c"))
    ∷ at_four (user_email_verification_requested 1 (codes "a@b.c") (7 ∷ []))
    ∷ at_four (refresh_token_reuse_detected 1 2 none none none)
    ∷ []

-- two reads around the pushes of three events, of which the second is no `DomainEvent`
abbrev traffic : List QueueCall
traffic = get (pos 0) (pos 1) true ∷ map push mixed ++ get (pos 1) (pos 4) false ∷ []

answers-refines_example :
    answers redis_event_queue traffic (map serialize logged) 9
    ≡ answers in_memory_event_queue (domain_calls traffic) logged 9
answers-refines_example =
    answers-refines demo-IsRedis demo-IsReadBack traffic logged 9 logged-AllDomain

publish-routes_example :
    ((publish mixed start).1.audit ≡ [] ++ map serialize (filter is_domain mixed))
    × ((publish mixed start).1.notifications ≡ [] ++ filter is_notification mixed)
    × ((publish mixed start).1.db ≡ start.db)
publish-routes_example = publish-routes demo-IsRedis mixed start

abbrev home : Text
home = 10 ∷ 0 ∷ 0 ∷ 1 ∷ []

abbrev risk : ℕ
risk = assess_risk (some home) (some (codes "curl")) none none (some (codes "wget")) none
