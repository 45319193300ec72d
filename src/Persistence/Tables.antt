-- ===== src/Persistence/Tables.antt =====
-- Facts about the statements on one table that hold for every kind of row.
use hexagonal_auth_service.Base.{
  ◌≤◌, ◌≡◌, ◌≢◌, refl, Bool, true, inl, inr, Bool-cases, false, List, [], ◌∷◌, ◌++◌, filter, count,
  arith,
}
use hexagonal_auth_service.Persistence.Sql.{update_where}

-- an UPDATE that hits no row
pub update_where-none :
    {R : Type 0} (p : R → Bool) (f : R → R) (rows : List R)
    → count p rows ≡ 0
    → update_where p f rows ≡ rows
unfolding update_where
update_where-none p f [] h = refl
update_where-none p f (r ∷ rows) h = ground (arith, update_where-none p f rows)

module _ {R : Type 0} (p q : R → Bool) where
  -- a row that a filter finds is counted
  count-filter : (r : R) (rows : List R) → filter q rows ≡ r ∷ [] → p r ≡ true → 1 ≤ count p rows
  count-filter r [] h e = cc
  count-filter r (x ∷ rows) h e = ground (arith, count-filter r rows)

  -- An UPDATE that hits one row, the only one that a query finds, replaces it in the query's result.
  pub filter-update_where :
      (f : R → R) (r : R) (rows : List R)
      → filter q rows ≡ r ∷ []
      → p r ≡ true
      → count p rows ≡ 1
      → q (f r) ≡ true
      → filter q (update_where p f rows) ≡ f r ∷ []
  unfolding update_where
  filter-update_where f r [] h e n k = cc
  filter-update_where f r (x ∷ rows) h e n k =
      ground (arith, update_where-none p f rows, count-filter r rows, filter-update_where f r rows)

-- Where the first of two statements changes every row that the second would hit, the second hits none.
pub count-update_where :
    {R : Type 0} (p q : R → Bool) (f : R → R) (rows : List R)
    → ((r : R) → q (f r) ≡ false)
    → ((r : R) → q r ≡ true → p r ≡ true)
    → count q (update_where p f rows) ≡ 0
unfolding update_where
count-update_where p q f [] missed hit = refl
count-update_where p q f (r ∷ rows) missed hit =
    ground (arith, count-update_where p q f rows missed hit, missed r, hit r)

-- what a filter keeps passes its test
pub filter-head {ℓ} :
    {R : Type ℓ} (q : R → Bool) (r : R) (rest rows : List R) → filter q rows ≡ r ∷ rest → q r ≡ true
filter-head q r rest [] h = cc
filter-head q r rest (x ∷ rows) h = elim (Bool-cases (q x)) [
  | inl passes ↦ ground arith
  | inr fails ↦ filter-head q r rest rows (ground arith)
]

-- what one filter finds is among what another finds, if it passes its test
filter-missed :
    {R : Type 0} (p q : R → Bool) (s : R) (rows : List R)
    → filter p rows ≡ s ∷ []
    → q s ≡ true
    → filter q rows ≢ []
filter-missed p q s [] h e k = cc
filter-missed p q s (x ∷ rows) h e k = ground (arith, filter-missed p q s rows)

-- two queries of one row, the second's passing the first's test, find the same row
pub filter_unique :
    {R : Type 0} (p q : R → Bool) (r s : R) (rows : List R)
    → filter q rows ≡ r ∷ []
    → filter p rows ≡ s ∷ []
    → q s ≡ true
    → r ≡ s
filter_unique p q r s [] h k e = cc
filter_unique p q r s (x ∷ rows) h k e =
    ground (arith, filter_unique p q r s rows, filter-missed p q s rows)

-- what a query does not find is not counted under a narrower test
pub count-unfound :
    {R : Type 0} (p q : R → Bool) (rows : List R)
    → ((r : R) → p r ≡ true → q r ≡ true)
    → filter q rows ≡ []
    → count p rows ≡ 0
count-unfound p q [] sub h = refl
count-unfound p q (x ∷ rows) sub h = ground (arith, count-unfound p q rows sub, sub x)

-- an UPDATE that hits the last row alone
pub update_where-last :
    {R : Type 0} (p : R → Bool) (f : R → R) (r : R) (rows : List R)
    → count p rows ≡ 0
    → p r ≡ true
    → (update_where p f (rows ++ r ∷ []) ≡ rows ++ f r ∷ []) × (count p (rows ++ r ∷ []) ≡ 1)
unfolding update_where
update_where-last p f r [] h e = (rw e refl, rw e refl)
update_where-last p f r (x ∷ rows) h e =
    let rest = update_where-last p f r rows in (ground (arith, rest), ground (arith, rest))

-- a query that finds the last row alone
pub filter-last :
    {R : Type 0} (q : R → Bool) (r : R) (rows : List R)
    → filter q rows ≡ []
    → q r ≡ true
    → filter q (rows ++ r ∷ []) ≡ r ∷ []
filter-last q r [] h e = rw e refl
filter-last q r (x ∷ rows) h e = ground (arith, filter-last q r rows)

-- of the rows that pass the wider of two tests there is one, and it passes the narrower
pub count-one :
    {R : Type 0} (p q : R → Bool) (r : R) (rows : List R)
    → ((x : R) → p x ≡ true → q x ≡ true)
    → filter q rows ≡ r ∷ []
    → p r ≡ true
    → count p rows ≡ 1
count-one p q r [] sub h e = cc
count-one p q r (x ∷ rows) sub h e =
    ground (arith, count-one p q r rows sub, count-unfound p q rows sub, sub x)
