-- ===== src/Ports/Queues.antt =====
-- The two queues of events behind their port, over any sequence of calls.
use hexagonal_auth_service.Base.{
  ℕ, ◌≡◌, refl, sym, ap, Bool, true, false, Bool-cases, inl, inr, List, [], ◌∷◌, map, Text,
  if◌then◌else◌,
}
use mathlib.Core.List.{map-append}
use hexagonal_auth_service.Base.Int.{ℤ}
use hexagonal_auth_service.Env.{Env}
use hexagonal_auth_service.Events.{Event}
use hexagonal_auth_service.Events.Kinds.{is_domain}
use hexagonal_auth_service.Events.Serializer.{serialize}
use hexagonal_auth_service.Events.Serializer.RoundTrip.{IsReadBack}
use hexagonal_auth_service.EventBus.Memory
use hexagonal_auth_service.EventBus.RedisQueue
use hexagonal_auth_service.EventBus.RedisQueue.Refines.{
  AllDomain, AllDomain-append, IsRedis, get-refines,
}
use hexagonal_auth_service.Ports.{EventQueuePort}
use hexagonal_auth_service.Ports.Adapters.{in_memory_event_queue, redis_event_queue}

-- a call of a method of the port
pub data QueueCall : Type 0 where
  push : Event → QueueCall
  get : (offset limit : ℤ) (desc : Bool) → QueueCall

-- what the calls of `get` return, in their order
unfoldable pub answers :
    {S : Type 0} → EventQueuePort S → List QueueCall → S → ℕ → List (List Event)
answers port [] s n = []
answers port (push event ∷ calls) s n = answers port calls (port.push s event) n
answers port (get offset limit desc ∷ calls) s n =
    let (events, m) = port.get s offset limit desc n in events ∷ answers port calls s m

-- the calls without the pushes of what is no `DomainEvent`
unfoldable pub domain_calls : List QueueCall → List QueueCall
domain_calls [] = []
domain_calls (push event ∷ calls) =
    if is_domain event then push event ∷ domain_calls calls else domain_calls calls
domain_calls (get offset limit desc ∷ calls) = get offset limit desc ∷ domain_calls calls

pushed-AllDomain :
    (es : List Event) (event : Event)
    → AllDomain es
    → is_domain event ≡ true
    → AllDomain (Memory.push es event)
unfolding Memory.push
pushed-AllDomain es event all domain = AllDomain-append es (event ∷ []) all (domain, tt)

module _ ⦃env : Env⦄ where
  pushed :
      IsRedis
      → (es : List Event) (event : Event) → is_domain event ≡ true
      → RedisQueue.push (map serialize es) event ≡ map serialize (Memory.push es event)
  unfolding RedisQueue.push Memory.push
  pushed law es event domain =
      rw (domain, law.rpush_last (map serialize es) (serialize event))
        (sym (map-append serialize es (event ∷ [])))

  skipped :
      (stored : List Text) (event : Event)
      → is_domain event ≡ false
      → RedisQueue.push stored event ≡ stored
  unfolding RedisQueue.push
  skipped stored event other = rw other refl

  -- From the serialized `DomainEvent`s of a list, over any sequence of calls of the port, the queue in
  -- Redis answers every `get` with the events with which the queue in memory answers that holds the list
  -- and is given the same calls less the pushes of what is no `DomainEvent`: if Redis keeps lists as it
  -- documents and JSON, identifiers and dates read back what they wrote.
  pub answers-refines :
      IsRedis
      → IsReadBack
      → (calls : List QueueCall) (es : List Event) (n : ℕ) → AllDomain es
      → answers redis_event_queue calls (map serialize es) n
        ≡ answers in_memory_event_queue (domain_calls calls) es n
  unfolding answers domain_calls redis_event_queue in_memory_event_queue
  answers-refines law back [] es n all = refl
  answers-refines law back (push event ∷ calls) es n all = elim (Bool-cases (is_domain event)) [
    | inl domain ↦
        rw (domain, pushed law es event domain)
          (answers-refines law back calls (Memory.push es event) n
            (pushed-AllDomain es event all domain))
    | inr other ↦
        rw (other, skipped (map serialize es) event other) (answers-refines law back calls es n all)
  ]
  answers-refines law back (get offset limit desc ∷ calls) es n all =
      rw (get-refines law back es offset limit desc n all)
        (ap (λ l. Memory.get es offset limit desc ∷ l) (answers-refines law back calls es n all))
