-- ===== src/EventBus/RedisQueue.antt =====
-- event_bus/redis/event_queue.py. The connection to Redis is taken to hold: a command returns. In the
-- code an RPUSH that fails raises, after the transaction was committed; no error of Redis is modelled.
pub mod Window
pub mod Refines
use hexagonal_auth_service.Base.{
  ℕ, zero, suc, ◌+◌, ◌-◌, Bool, ◌||◌, leb, ◌==◌, List, [], ◌∷◌, reverse, Text, if◌then◌else◌,
}
use hexagonal_auth_service.Base.Int.{ℤ, pos, negsuc}
use hexagonal_auth_service.Exec.{Result, ok, err}
use hexagonal_auth_service.Env.{Env}
use hexagonal_auth_service.Events.{Event}
use hexagonal_auth_service.Events.Kinds.{is_domain}
use hexagonal_auth_service.Events.Serializer.{serialize, deserialize}

-- the append under the `try`: an item that raises is logged and skipped
unfoldable pub keep_read : Result Event → List Event → List Event
keep_read (ok e) events = e ∷ events
keep_read (err c) events = events

-- `max(start - limit + 1, 0)`; a difference on the naturals stops at 0
unfoldable pub tail_stop : ℕ → ℕ → ℕ
tail_stop start limit = start + 1 - limit

module _ ⦃env : Env⦄ where
  unfoldable pub push : List Text → Event → List Text
  unfolding is_domain serialize
  push stored event = if is_domain event then env.rpush stored (serialize event) else stored

  -- the loop over `raw_items`; the state is the number of calls to the outside
  unfoldable pub read_all : List Text → ℕ → List Event × ℕ
  unfolding keep_read deserialize
  read_all [] n = ([], n)
  read_all (raw ∷ items) n =
      let (r, n₁) = deserialize raw n in
      let (events, n₂) = read_all items n₁ in (keep_read r events, n₂)

  -- `get` at an offset and a limit that pass the first test
  unfoldable pub get_items : List Text → ℕ → ℕ → Bool → List Text
  unfolding tail_stop
  get_items stored offset limit desc =
      let total = env.llen stored in
      if total == 0 || leb total offset
      then []
      else if desc
      then reverse (env.lrange stored (tail_stop (total - 1 - offset) limit) (total - 1 - offset))
      else env.lrange stored offset (offset + limit - 1)

  unfoldable pub get : List Text → ℤ → ℤ → Bool → ℕ → List Event × ℕ
  unfolding read_all get_items
  get stored (negsuc offset) limit desc n = ([], n)
  get stored (pos offset) (negsuc limit) desc n = ([], n)
  get stored (pos offset) (pos zero) desc n = ([], n)
  get stored (pos offset) (pos (suc limit)) desc n =
      read_all (get_items stored offset (suc limit) desc) n
