-- ===== src/EventBus/RedisQueue/Refines.antt =====
-- event_bus/redis/event_queue.py against event_bus/in_memory/event_queue.py.
use hexagonal_auth_service.Base.{
  ℕ, zero, suc, ◌+◌, ◌-◌, ◌≤◌, ◌<◌, ◌≡◌, refl, sym, ap, ◌∙◌, Bool, true, false, ◌||◌, List, [], ◌∷◌,
  ◌++◌, map, reverse, length, take, drop, Text, arith, leb, ◌==◌, inl, inr, Bool-cases,
  if◌then◌else◌,
}
use hexagonal_auth_service.Base.Int.{ℤ, pos, negsuc}
use mathlib.Core.List.{reverse-cons, map-append}
use hexagonal_auth_service.Env.{Env}
use hexagonal_auth_service.Events.{Event}
use hexagonal_auth_service.Events.Kinds.{is_domain}
use hexagonal_auth_service.Events.Serializer.{serialize}
use hexagonal_auth_service.Events.Serializer.RoundTrip.{IsReadBack, deserialize-serialize}
use hexagonal_auth_service.EventBus.Memory
use hexagonal_auth_service.EventBus.RedisQueue.{get, get_items, read_all, tail_stop, keep_read}
use hexagonal_auth_service.EventBus.RedisQueue.Window.{between, between-reverse, length-reverse}

module _ {A B : Type 0} (f : A → B) where
  map-reverse : (xs : List A) → reverse (map f xs) ≡ map f (reverse xs)
  map-reverse [] = refl
  map-reverse (x ∷ xs) =
      reverse-cons (f x) (map f xs)
      ∙ ap (λ l. l ++ f x ∷ []) (map-reverse xs)
      ∙ sym (map-append f (reverse xs) (x ∷ []))
      ∙ ap (map f) (sym (reverse-cons x xs))

  map-take : (n : ℕ) (xs : List A) → take n (map f xs) ≡ map f (take n xs)
  map-take zero xs = refl
  map-take (suc n) [] = refl
  map-take (suc n) (x ∷ xs) = ap (λ l. f x ∷ l) (map-take n xs)

  map-drop : (n : ℕ) (xs : List A) → drop n (map f xs) ≡ map f (drop n xs)
  map-drop zero xs = refl
  map-drop (suc n) [] = refl
  map-drop (suc n) (x ∷ xs) = map-drop n xs

  length-map : (xs : List A) → length (map f xs) ≡ length xs
  length-map [] = refl
  length-map (x ∷ xs) = ap suc (length-map xs)

drop_all : {A : Type 0} (n : ℕ) (xs : List A) → length xs ≤ n → drop n xs ≡ []
drop_all zero [] h = refl
drop_all zero (x ∷ xs) h = absurd (omega (arith, h))
drop_all (suc n) [] h = refl
drop_all (suc n) (x ∷ xs) h = drop_all n xs (omega (arith, h))

take_none : {A : Type 0} (n : ℕ) → take {A = A} n [] ≡ []
take_none zero = refl
take_none (suc n) = refl

-- every event of a list is a `DomainEvent`
abbrev pub AllDomain : List Event → Type 0
AllDomain [] = Unit
AllDomain (e ∷ es) = (is_domain e ≡ true) × AllDomain es

AllDomain-take : (n : ℕ) (es : List Event) → AllDomain es → AllDomain (take n es)
AllDomain-take zero es h = tt
AllDomain-take (suc n) [] h = tt
AllDomain-take (suc n) (e ∷ es) h = (h.0, AllDomain-take n es h.1)

AllDomain-drop : (n : ℕ) (es : List Event) → AllDomain es → AllDomain (drop n es)
AllDomain-drop zero es h = h
AllDomain-drop (suc n) [] h = tt
AllDomain-drop (suc n) (e ∷ es) h = AllDomain-drop n es h.1

pub AllDomain-append : (es fs : List Event) → AllDomain es → AllDomain fs → AllDomain (es ++ fs)
AllDomain-append [] fs h k = k
AllDomain-append (e ∷ es) fs h k = (h.0, AllDomain-append es fs h.1 k)

AllDomain-reverse : (es : List Event) → AllDomain es → AllDomain (reverse es)
AllDomain-reverse [] h = tt
AllDomain-reverse (e ∷ es) h =
    rw reverse-cons (AllDomain-append (reverse es) (e ∷ []) (AllDomain-reverse es h.1) (h.0, tt))

AllDomain-get :
    (es : List Event) (offset limit : ℤ) (desc : Bool)
    → AllDomain es
    → AllDomain (Memory.get es offset limit desc)
unfolding Memory.get Memory.slice
AllDomain-get es (negsuc o) l d h = tt
AllDomain-get es (pos o) (negsuc l) d h = tt
AllDomain-get es (pos o) (pos zero) d h = tt
AllDomain-get es (pos o) (pos (suc l)) true h =
    AllDomain-take _ _ (AllDomain-drop o _ (AllDomain-reverse es h))
AllDomain-get es (pos o) (pos (suc l)) false h = AllDomain-take _ _ (AllDomain-drop o es h)

module _ ⦃env : Env⦄ where
  -- What Redis documents of the list commands: RPUSH appends, LLEN counts, and LRANGE gives the items
  -- from the first index to the last, both included, as far as there are any.
  pub record IsRedis : Type 0 where
    pub rpush_last : (items : List Text) (item : Text) → env.rpush items item ≡ items ++ item ∷ []
    pub llen_length : (items : List Text) → env.llen items ≡ length items
    pub lrange_between : (items : List Text) (a b : ℕ) → env.lrange items a b ≡ between items a b

  read_all-serialize :
      IsReadBack
      → (es : List Event) (n : ℕ) → AllDomain es
      → read_all (map serialize es) n ≡ (es, n)
  unfolding read_all keep_read
  read_all-serialize law [] n h = refl
  read_all-serialize law (e ∷ es) n h =
      rw (deserialize-serialize law e n h.0) (rw (read_all-serialize law es n h.1) refl)

  between-serialize :
      (es : List Event) (a b : ℕ) → between (map serialize es) a b ≡ map serialize (between es a b)
  between-serialize es a b =
      ap (take (suc b - a)) (map-drop serialize a es) ∙ map-take serialize (suc b - a) (drop a es)

  beyond :
      (es : List Event) (o l : ℕ) (desc : Bool)
      → length es ≤ o
      → Memory.get es (pos o) (pos (suc l)) desc ≡ []
  unfolding Memory.get Memory.slice
  beyond es o l true h =
      rw (drop_all o (reverse es) (omega (arith, length-reverse es, h))) (take_none (o + suc l - o))
  beyond es o l false h = rw (drop_all o es h) (take_none (o + suc l - o))

  within :
      IsRedis
      → (es : List Event) (o l : ℕ) (desc : Bool) → o < length es
      → (if desc
          then reverse (
              env.lrange
                (map serialize es)
                (tail_stop (length es - 1 - o) (suc l))
                (length es - 1 - o))
          else env.lrange (map serialize es) o (o + suc l - 1))
        ≡ map serialize (Memory.get es (pos o) (pos (suc l)) desc)
  unfolding tail_stop Memory.get Memory.slice
  within law es o l true h =
      ap reverse
        (law.lrange_between (map serialize es) (length es - 1 - o + 1 - suc l) (length es - 1 - o))
      ∙ ap reverse (between-serialize es (length es - 1 - o + 1 - suc l) (length es - 1 - o))
      ∙ map-reverse serialize (between es (length es - 1 - o + 1 - suc l) (length es - 1 - o))
      ∙ ap (map serialize) (between-reverse es o (suc l) h)
      ∙ ap (λ n. map serialize (take n (drop o (reverse es)))) {x = suc l} (omega arith)
  within law es o l false h =
      law.lrange_between (map serialize es) o (o + suc l - 1)
      ∙ between-serialize es o (o + suc l - 1)
      ∙ ap (λ n. map serialize (take n (drop o es))) {x = suc (o + suc l - 1) - o} (omega arith)

  get_items_lem :
      IsRedis
      → (es : List Event) (o l : ℕ) (desc : Bool)
      → get_items (map serialize es) o (suc l) desc
        ≡ map serialize (Memory.get es (pos o) (pos (suc l)) desc)
  unfolding get_items
  get_items_lem law es o l desc =
      rw (law.llen_length (map serialize es), length-map serialize es)
        (elim (Bool-cases (length es == 0 || leb (length es) o)) [
          | inl k ↦ rw (k, beyond es o l desc (ground arith)) refl
          | inr k ↦ rw k (within law es o l desc (ground arith))
        ])

  -- Over the serialized `DomainEvent`s of a list, the queue in Redis answers every `get` as the queue in
  -- memory that holds the list: for every offset and limit, negative ones included, and in both orders.
  pub get-refines :
      IsRedis
      → IsReadBack
      → (es : List Event) (offset limit : ℤ) (desc : Bool) (n : ℕ) → AllDomain es
      → get (map serialize es) offset limit desc n ≡ (Memory.get es offset limit desc, n)
  unfolding get Memory.get
  get-refines law back es (negsuc o) limit desc n h = refl
  get-refines law back es (pos o) (negsuc l) desc n h = refl
  get-refines law back es (pos o) (pos zero) desc n h = refl
  get-refines law back es (pos o) (pos (suc l)) desc n h =
      ap (λ items. read_all items n) (get_items_lem law es o l desc)
      ∙ read_all-serialize back (Memory.get es (pos o) (pos (suc l)) desc) n
          (AllDomain-get es (pos o) (pos (suc l)) desc h)
