-- ===== src/Http/EventsPage/Pages.antt =====
-- routers/events.py: what each page of the log holds, and where its links lead.
use mathlib.Core.List.{map-append}
use hexagonal_auth_service.Base.{
  ℕ, zero, suc, ◌+◌, ◌-◌, ◌*◌, ◌≤◌, ◌<◌, ◌≡◌, refl, sym, ap, ◌∙◌, ◌↔◌, true, false, Bool-cases, inl,
  inr, Option, none, some, List, [], ◌∷◌, ◌++◌, map, reverse, length, take, drop, Text, arith, ltb,
  if◌then◌else◌,
}
use hexagonal_auth_service.Base.Int.{pos}
use hexagonal_auth_service.Env.{Env}
use hexagonal_auth_service.Events.{Event}
use hexagonal_auth_service.Events.Serializer.{serialize}
use hexagonal_auth_service.Events.Serializer.RoundTrip.{IsReadBack}
use hexagonal_auth_service.EventBus.Memory
use hexagonal_auth_service.EventBus.RedisQueue.Refines.{IsRedis, AllDomain, get-refines}
use hexagonal_auth_service.EventBus.RedisQueue.Window.{length-drop, length-reverse, take-drop}
use hexagonal_auth_service.Http.EventsPage.{Page, EventData, events_page, event_data}

module _ {A : Type 0} where
  -- one item after the first `m` tells that there are more than `m`
  one_more : (m : ℕ) (xs : List A) → ltb 0 (length (take 1 (drop m xs))) ≡ ltb m (length xs)
  one_more zero [] = refl
  one_more zero (x ∷ xs) = ground arith
  one_more (suc m) [] = ground arith
  one_more (suc m) (x ∷ xs) = ground (arith, one_more m xs)

  drop_none : (n : ℕ) → drop {A = A} n [] ≡ []
  drop_none zero = refl
  drop_none (suc n) = refl

  drop-drop : (m n : ℕ) (xs : List A) → drop m (drop n xs) ≡ drop (n + m) xs
  drop-drop m zero xs = ap (λ k. drop k xs) {x = m} (omega arith)
  drop-drop m (suc n) [] = drop_none m ∙ sym (drop_none (suc n + m))
  drop-drop m (suc n) (x ∷ xs) =
      drop-drop m n xs ∙ ap (λ k. drop k (x ∷ xs)) {x = suc (n + m)} (omega arith)

  slice_page :
      (k : ℕ) (xs : List A)
      → Memory.slice xs ((suc k - 1) * 10) ((suc k - 1) * 10 + 10) ≡ take 10 (drop (10 * k) xs)
  unfolding Memory.slice
  slice_page k xs =
      ap (λ n. take n (drop ((suc k - 1) * 10) xs)) {x = (suc k - 1) * 10 + 10 - (suc k - 1) * 10}
        {y = 10} (omega arith)
      ∙ ap (λ n. take 10 (drop n xs)) {x = (suc k - 1) * 10} (omega arith)

  slice_next :
      (k : ℕ) (xs : List A)
      → ltb 0 (length (Memory.slice xs ((suc k - 1) * 10 + 10) ((suc k - 1) * 10 + 10 + 1)))
        ≡ ltb (10 * (k + 1)) (length xs)
  unfolding Memory.slice
  slice_next k xs =
      ap (λ n. ltb 0 (length (take n (drop ((suc k - 1) * 10 + 10) xs))))
        {x = (suc k - 1) * 10 + 10 + 1 - ((suc k - 1) * 10 + 10)} {y = 1} (omega arith)
      ∙ ap (λ n. ltb 0 (length (take 1 (drop n xs)))) {x = (suc k - 1) * 10 + 10} {y = 10 * (k + 1)}
          (omega arith)
      ∙ one_more (10 * (k + 1)) xs

  -- one page, and what comes after it
  chunk :
      (k : ℕ) (xs : List A) → take 10 (drop (10 * k) xs) ++ drop (10 * suc k) xs ≡ drop (10 * k) xs
  chunk k xs =
      ap (λ n. take 10 (drop (10 * k) xs) ++ drop n xs) {x = 10 * suc k} {y = 10 * k + 10}
        (omega arith)
      ∙ ap (λ l. take 10 (drop (10 * k) xs) ++ l) (sym (drop-drop 10 (10 * k) xs))
      ∙ take-drop 10 (drop (10 * k) xs)

  take_all : (n : ℕ) (xs : List A) → length xs ≤ n → take n xs ≡ xs
  take_all zero [] h = refl
  take_all zero (x ∷ xs) h = absurd (omega (arith, h))
  take_all (suc n) [] h = refl
  take_all (suc n) (x ∷ xs) h = ap (λ l. x ∷ l) (take_all n xs (omega (arith, h)))

module _ ⦃env : Env⦄ where
  -- what a reader has seen, with the pages that come later
  abbrev pub prepend : List EventData → Option (List EventData) → Option (List EventData)
  prepend seen none = none
  prepend seen (some later) = some (seen ++ later)

  -- A reader on a page who follows the link to the next one as long as there is one; `none` where the
  -- fuel, the number of pages that may be opened, runs out.
  unfoldable pub follow : ℕ → ℕ → List Text → ℕ → Option (List EventData)
  follow zero page stored n = none
  follow (suc fuel) page stored n =
      let (p, n') = events_page page stored n in
      let later = follow fuel p.next_page stored n' in
      if p.has_next then prepend p.events later else some p.events

  module _ (redis : IsRedis) (back : IsReadBack) (es : List Event) (h : AllDomain es) where
    -- page `k + 1`
    abbrev page_after : ℕ → Page
    page_after k = record {
      events = map event_data (take 10 (drop (10 * k) (reverse es)));
      page = suc k;
      has_next = ltb (10 * (k + 1)) (length es);
      has_prev = ltb 0 k;
      next_page = suc (suc k);
      prev_page = k;
    }

    events_page_eq : (k n : ℕ) → events_page (suc k) (map serialize es) n ≡ (page_after k, n)
    unfolding events_page Memory.get
    events_page_eq k n =
        rw
          (
            get-refines redis back es (pos ((suc k - 1) * 10)) (pos 10) true n h,
            get-refines redis back es (pos ((suc k - 1) * 10 + 10)) (pos 1) false n h,
          )
          (rw (slice_page k (reverse es), slice_next k es) (ground arith))

    -- Page `k + 1` of the log of a list of `DomainEvent`s holds the ten events after the `10 * k` newest
    -- ones, newest first, or those that there are of them. It has a next page exactly if the log has
    -- more than `10 * (k + 1)` events, and a previous one exactly if `k` is not 0; their numbers are
    -- `k + 2` and `k`.
    pub events_page_lem :
        (k n : ℕ)
        → let p = (events_page (suc k) (map serialize es) n).0 in
          (p.events ≡ map event_data (take 10 (drop (10 * k) (reverse es))))
          × ((p.has_next ≡ true) ↔ (10 * (k + 1) < length es))
          × ((p.has_prev ≡ true) ↔ (0 < k))
          × (p.next_page ≡ k + 2)
          × (p.prev_page ≡ k)
    events_page_lem k n = rw (events_page_eq k n) (
      refl,
      (λ e. ground arith, λ e. ground arith),
      (λ e. ground arith, λ e. ground arith),
      omega arith,
      refl,
    )

    -- the last page holds all that is left
    last_page :
        (k : ℕ)
        → length es ≤ 10 * (k + 1)
        → map event_data (take 10 (drop (10 * k) (reverse es)))
          ≡ map event_data (drop (10 * k) (reverse es))
    last_page k e = ap (map event_data) (
        take_all 10 (drop (10 * k) (reverse es))
          (omega (arith, length-drop (10 * k) (reverse es), length-reverse es)))

    no_next : (k : ℕ) → length es ≤ 10 * (k + 1) → ltb (10 * (k + 1)) (length es) ≡ false
    no_next k e = ground arith

    follow_from :
        (fuel k n : ℕ)
        → length es ≤ 10 * (k + fuel)
        → follow (suc fuel) (suc k) (map serialize es) n
          ≡ some (map event_data (drop (10 * k) (reverse es)))
    unfolding follow
    follow_from zero k n e =
        rw (events_page_eq k n) (rw (no_next k (omega arith)) (ap some (last_page k (omega arith))))
    follow_from (suc fuel) k n e =
        rw (events_page_eq k n) (elim (Bool-cases (ltb (10 * (k + 1)) (length es))) [
          | inl more ↦
              rw (more, follow_from fuel (suc k) n (omega arith))
                (ap some (
                  sym (
                    map-append event_data (take 10 (drop (10 * k) (reverse es)))
                      (drop (10 * suc k) (reverse es)))
                  ∙ ap (map event_data) (chunk k (reverse es))))
          | inr last ↦ rw last (ap some (last_page k (ground arith)))
        ])

    -- A reader who starts at the first page and follows the links to the next one for as long as there
    -- is one comes to an end, after at most as many pages as the log has events and one more, and has
    -- then been shown every event of the log, once, newest first.
    pub follow_all :
        (n : ℕ)
        → follow (suc (length es)) 1 (map serialize es) n ≡ some (map event_data (reverse es))
    follow_all n = follow_from (length es) 0 n (omega arith)
