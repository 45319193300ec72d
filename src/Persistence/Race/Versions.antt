-- ===== src/Persistence/Race/Versions.antt =====
-- What an UPDATE and an INSERT leave of the versions of an object.
use hexagonal_auth_service.Base.{
  ℕ, ◌+◌, ◌≤◌, ◌≡◌, refl, inl, inr, Bool, true, false, Bool-cases, ◌&&◌, some, List, [], ◌∷◌, ◌++◌,
  count, leb, ◌==◌, arith,
}
use hexagonal_auth_service.Schema.Constraints.{unique_by}
use hexagonal_auth_service.Persistence.Sql.{update_where, delete_where, version_is}
use hexagonal_auth_service.Env.{Env}
use hexagonal_auth_service.Persistence.Versioned.{Versioned}

module _ {R : Type 0} where
  pub count_le :
      (p q : R → Bool) (rows : List R)
      → ((r : R) → p r ≡ true → q r ≡ true)
      → count p rows ≤ count q rows
  count_le p q [] sub = omega arith
  count_le p q (x ∷ rows) sub = ground (arith, count_le p q rows sub, sub x)

  -- where an UPDATE hits every row of a kind, no row is left that the new columns exclude
  updated-none :
      (p q s : R → Bool) (f : R → R) (rows : List R)
      → ((r : R) → p r ≡ true → q r ≡ true)
      → ((r : R) → s r ≡ true → q r ≡ true)
      → ((r : R) → s (f r) ≡ false)
      → count q rows ≤ count p rows
      → count s (update_where p f rows) ≡ 0
  unfolding update_where
  updated-none p q s f [] pq sq out le = refl
  updated-none p q s f (x ∷ rows) pq sq out le =
      ground (arith, updated-none p q s f rows pq sq out, count_le p q rows pq, pq x, sq x, out x)

  -- an UPDATE after which no row passes a test that it did not pass before
  updated-kept :
      (p s : R → Bool) (f : R → R) (rows : List R)
      → ((r : R) → p r ≡ true → s r ≡ false → s (f r) ≡ false)
      → count s rows ≡ 0
      → count s (update_where p f rows) ≡ 0
  unfolding update_where
  updated-kept p s f [] keeps h = refl
  updated-kept p s f (x ∷ rows) keeps h = ground (arith, updated-kept p s f rows keeps, keeps x)

  -- an UPDATE that leaves a test as it is
  updated-same :
      (p q : R → Bool) (f : R → R) (rows : List R)
      → ((r : R) → q (f r) ≡ q r)
      → count q (update_where p f rows) ≡ count q rows
  unfolding update_where
  updated-same p q f [] same = refl
  updated-same p q f (x ∷ rows) same = ground (arith, updated-same p q f rows same, same x)

  count-append :
      (p : R → Bool) (rows : List R) (r : R)
      → count p (rows ++ r ∷ []) ≡ count p rows + count p (r ∷ [])
  count-append p [] r = omega arith
  count-append p (x ∷ rows) r = ground (arith, count-append p rows r)

module _ ⦃env : Env⦄ {E R : Type 0} (t : Versioned E R) where
  open t use {
    row_id, row_version, id, version, is_current, set_columns, is_current_lem, keeps_id,
    sets_version,
  }

  -- the rows of an object, and those at a version that is not newer
  abbrev pub is_of : ℕ → R → Bool
  is_of k r = row_id r == k

  abbrev pub is_old : ℕ → ℕ → R → Bool
  is_old k n r = row_id r == k && leb (row_version r) n

  -- `unique=True` on the ids
  abbrev pub UniqueIds : List R → Type 0
  UniqueIds rows = unique_by (λ a b. row_id a == row_id b) rows ≡ true

  unique-count : (k : ℕ) (rows : List R) → UniqueIds rows → count (is_of k) rows ≤ 1
  unfolding unique_by
  unique-count k [] u = omega arith
  unique-count k (x ∷ rows) u = elim (Bool-cases (row_id x == k)) [
    | inl same ↦
        let others = count_le (is_of k) (λ b. row_id x == row_id b) rows (λ r h. ground arith) in
        ground arith
    | inr other ↦ ground (arith, unique-count k rows)
  ]

  -- No row of the object is at the version `n` or an older one. It may have no row at all.
  abbrev pub IsPast : ℕ → ℕ → List R → Type 0
  IsPast k n rows = count (is_old k n) rows ≡ 0

  -- an UPDATE of an object
  pub updated-IsPast :
      (e : E) (m k n : ℕ) (rows : List R)
      → version e ≡ some m
      → IsPast k n rows
      → IsPast k n (update_where (is_current e) (set_columns e (m + 1)) rows)
  unfolding version_is
  updated-IsPast e m k n rows v h =
      updated-kept (is_current e) (is_old k n) (set_columns e (m + 1)) rows
        (λ r hit old.
          ground (arith, v, is_current_lem e r, keeps_id e (m + 1) r, sets_version e (m + 1) r))
        h

  -- an INSERT of another object
  pub inserted-IsPast :
      (r : R) (k n : ℕ) (rows : List R)
      → (row_id r == k) ≡ false
      → IsPast k n rows
      → IsPast k n (rows ++ r ∷ [])
  inserted-IsPast r k n rows other h =
      let old = count-append (is_old k n) rows r in ground (arith, h)

  -- a DELETE
  pub deleted-IsPast :
      (p : R → Bool) (k n : ℕ) (rows : List R) → IsPast k n rows → IsPast k n (delete_where p rows)
  unfolding delete_where
  deleted-IsPast p k n [] h = refl
  deleted-IsPast p k n (x ∷ rows) h = ground (arith, deleted-IsPast p k n rows)

  owned : (a : E) (r : R) → is_current a r ≡ true → (row_id r == id a) ≡ true
  owned a r h = ground (arith, is_current_lem a r)

  -- the first save of the copies
  pub first-IsPast :
      (a : E) (n : ℕ) (rows : List R)
      → version a ≡ some n
      → UniqueIds rows
      → count (is_current a) rows ≡ 1
      → IsPast (id a) n (update_where (is_current a) (set_columns a (n + 1)) rows)
  unfolding version_is
  first-IsPast a n rows v u one =
      let most = unique-count (id a) rows u in
      let own = λ (r : R) (h : is_current a r ≡ true). owned a r h in
      updated-none (is_current a) (is_of (id a)) (is_old (id a) n) (set_columns a (n + 1)) rows own
        (λ r h. ground arith) (λ r. ground (arith, sets_version a (n + 1) r))
        (omega (arith, one, most))
