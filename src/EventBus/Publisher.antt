-- ===== src/EventBus/Publisher.antt =====
-- event_bus/in_memory/event_publisher.py, over the queues that app/adapters/nexus.py gives it: the
-- Redis queue for the audit log and the queue in memory for the notifications. Logging is left out.
pub mod Routing
use hexagonal_auth_service.Base.{List, [], ◌∷◌, if◌then◌else◌}
use hexagonal_auth_service.Exec.{Exec, ok}
use hexagonal_auth_service.Env.{Env}
use hexagonal_auth_service.World.{World}
use hexagonal_auth_service.Events.{Event}
use hexagonal_auth_service.Events.Kinds.{is_notification}
use hexagonal_auth_service.EventBus.Memory.{push_notification}
use hexagonal_auth_service.EventBus.RedisQueue.{push}

module _ ⦃env : Env⦄ where
  -- the body of the loop
  unfoldable pub route : Event → World → World
  unfolding is_notification push_notification
  route event w =
      if is_notification event
      then record w { notifications = push_notification w.notifications event }
      else record w { audit = push w.audit event }

  unfoldable pub route_all : List Event → World → World
  unfolding route
  route_all [] w = w
  route_all (e ∷ es) w = route_all es (route e w)

  unfoldable pub publish : List Event → Exec World (Unit {0})
  unfolding route_all
  publish events w = (ok tt, route_all events w)
