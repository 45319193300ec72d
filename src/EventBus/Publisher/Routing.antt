-- ===== src/EventBus/Publisher/Routing.antt =====
-- Where published events end up.
use hexagonal_auth_service.Base.{
  ◌≡◌, refl, sym, ◌∙◌, List, [], ◌∷◌, ◌++◌, map, filter, append_assoc, append-nil, arith,
}
use hexagonal_auth_service.Env.{Env}
use hexagonal_auth_service.World.{World}
use hexagonal_auth_service.Events.{Event}
use hexagonal_auth_service.Events.Kinds.{is_notification, is_domain}
use hexagonal_auth_service.Events.Serializer.{serialize}
use hexagonal_auth_service.EventBus.Memory.{push_notification}
use hexagonal_auth_service.EventBus.RedisQueue.{push}
use hexagonal_auth_service.EventBus.RedisQueue.Refines.{IsRedis}
use hexagonal_auth_service.EventBus.Publisher.{route, route_all, publish}

module _ ⦃env : Env⦄ where
  -- publishing writes no table
  pub db-route_all : (es : List Event) (w : World) → (route_all es w).db ≡ w.db
  unfolding route_all
  db-route_all [] w = refl
  db-route_all (e ∷ es) w = db-route_all es (route e w) ∙ ground arith

  -- one event: what it adds to the log and to the notifications
  route_lem :
      IsRedis
      → (e : Event) (es : List Event) (w : World)
      → ((route e w).audit ++ map serialize (filter is_domain es)
          ≡ w.audit ++ map serialize (filter is_domain (e ∷ es)))
        × ((route e w).notifications ++ filter is_notification es
            ≡ w.notifications ++ filter is_notification (e ∷ es))
        × ((route e w).db ≡ w.db)
  unfolding route push push_notification is_notification is_domain
  route_lem law e es w = (
    ground (
      arith,
      law.rpush_last w.audit (serialize e),
      append_assoc w.audit (serialize e ∷ []) (map serialize (filter is_domain es)),
    ),
    ground (arith, append_assoc w.notifications (e ∷ []) (filter is_notification es)),
    ground arith,
  )

  routed :
      IsRedis
      → (es : List Event) (w : World)
      → ((route_all es w).audit ≡ w.audit ++ map serialize (filter is_domain es))
        × ((route_all es w).notifications ≡ w.notifications ++ filter is_notification es)
        × ((route_all es w).db ≡ w.db)
  unfolding route_all
  routed law [] w = (sym (append-nil w.audit), sym (append-nil w.notifications), refl)
  routed law (e ∷ es) w =
      let (a, n, d) = route_lem law e es w in
      let (a', n', d') = routed law es (route e w) in (a' ∙ a, n' ∙ n, d' ∙ d)

  -- Publishing appends to the audit log the serialized `DomainEvent`s of the list, and to the
  -- notifications its `NotificationEvent`s, both in their order; it appends nothing else, so that an
  -- event of neither family is dropped and no notification reaches the log, and changes no table.
  pub publish-routes :
      IsRedis
      → (events : List Event) (w : World)
      → ((publish events w).1.audit ≡ w.audit ++ map serialize (filter is_domain events))
        × ((publish events w).1.notifications ≡ w.notifications ++ filter is_notification events)
        × ((publish events w).1.db ≡ w.db)
  unfolding publish
  publish-routes law events w = routed law events w
