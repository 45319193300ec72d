-- ===== src/EventBus/Memory.antt =====
-- event_bus/in_memory: the queue of events and the queue of notifications, as the lists they hold.
use hexagonal_auth_service.Base.{
  ℕ, zero, suc, ◌+◌, ◌-◌, Bool, List, [], ◌∷◌, ◌++◌, take, drop, reverse, if◌then◌else◌,
}
use hexagonal_auth_service.Base.Int.{ℤ, pos, negsuc}
use hexagonal_auth_service.Events.{Event}

-- `xs[a:b]`, at indices that are not negative
unfoldable pub slice {ℓ} : {A : Type ℓ} → List A → ℕ → ℕ → List A
slice xs a b = take (b - a) (drop a xs)

-- `InMemoryEventQueue.push`
unfoldable pub push : List Event → Event → List Event
push events event = events ++ event ∷ []

-- `InMemoryEventQueue.get`
unfoldable pub get : List Event → ℤ → ℤ → Bool → List Event
unfolding slice
get events (negsuc offset) limit desc = []
get events (pos offset) (negsuc limit) desc = []
get events (pos offset) (pos zero) desc = []
get events (pos offset) (pos (suc limit)) desc =
    if desc
    then slice (reverse events) offset (offset + suc limit)
    else slice events offset (offset + suc limit)

-- `InMemoryNotificationQueue`
unfoldable pub push_notification : List Event → Event → List Event
push_notification events event = events ++ event ∷ []

unfoldable pub get_all : List Event → List Event
get_all events = events

unfoldable pub clear : List Event → List Event
clear events = []
