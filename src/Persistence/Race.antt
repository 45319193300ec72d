-- ===== src/Persistence/Race.antt =====
-- The repositories under interleaved transactions.
pub mod Versions
pub mod Tables
use hexagonal_auth_service.Base.{
  Bool, false, ℕ, ◌+◌, ◌≡◌, refl, sym, ap, subst, ◌∙◌, true, none, some, List, [], ◌∷◌, ◌++◌, count,
  arith, ◌==◌, ◌&&◌, Option-cases, inl, inr,
}
use hexagonal_auth_service.Exec.{ok, err}
use hexagonal_auth_service.Env.{Env}
use hexagonal_auth_service.Schema.Constraints.{IsEnforcing}
use hexagonal_auth_service.World.{World}
use hexagonal_auth_service.Persistence.Sql.{update_where, delete_where, version_is}
use hexagonal_auth_service.Persistence.Versioned.{Versioned}
use hexagonal_auth_service.Persistence.Race.Versions.{
  is_old, IsPast, count_le, updated-IsPast, inserted-IsPast, deleted-IsPast, first-IsPast,
  UniqueIds,
}

module _ ⦃env : Env⦄ {E R : Type 0} (t : Versioned E R) where
  open t use {rows, id, version, save, save_with, is_current, set_columns, new_row}

  -- One statement of some transaction, for the object with the id `k`: the UPDATE or the INSERT of a save
  -- that returned, where no row is inserted with this id; the deletion of any rows, be it by the
  -- repository or by the cascade from the users; or anything that leaves the table.
  pub data Step (k : ℕ) : World → World → Type 0 where
    updates :
        (e e' : E) (m : ℕ) {w w' : World}
        → version e ≡ some m
        → save e w ≡ (ok e', w')
        → Step k w w'
    inserts :
        (e e' : E) {w w' : World}
        → version e ≡ none
        → (id e == k) ≡ false
        → save e w ≡ (ok e', w')
        → Step k w w'
    deletes :
        (p : R → Bool) {w w' : World}
        → rows w'.db ≡ delete_where p (rows w.db)
        → env.admits w'.db ≡ true
        → Step k w w'
    elsewhere : {w w' : World} → rows w'.db ≡ rows w.db → env.admits w'.db ≡ true → Step k w w'

  -- the statements of any transactions, in any order
  pub data Steps (k : ℕ) : World → World → Type 0 where
    done : {w : World} → Steps k w w
    onward : {u v w : World} → Step k u v → Steps k v w → Steps k u w

  Step-IsPast :
      (k n : ℕ) {w w' : World}
      → Step k w w'
      → IsPast t k n (rows w.db)
      → IsPast t k n (rows w'.db) × (env.admits w'.db ≡ true)
  Step-IsPast k n (updates e e' m {w} {w'} v h) past =
      let (changed, admitted, _) =
        t.updated e e' m w w'
          (subst (λ o. save_with e o w ≡ (ok e', w')) v (sym (t.save_lem e w) ∙ h)) in
      (subst (IsPast t k n) (sym changed) (updated-IsPast t e m k n (rows w.db) v past), admitted)
  Step-IsPast k n (inserts e e' {w} {w'} v other h) past =
      let (added, admitted) =
        t.inserted e e' w w'
          (subst (λ o. save_with e o w ≡ (ok e', w')) v (sym (t.save_lem e w) ∙ h)) in
      (
        subst (IsPast t k n) (sym added)
            (inserted-IsPast t (new_row e) k n (rows w.db) (rw (t.new_id e) other) past),
        admitted,
      )
  Step-IsPast k n (deletes p {w} gone valid) past =
      (subst (IsPast t k n) (sym gone) (deleted-IsPast t p k n (rows w.db) past), valid)
  Step-IsPast k n (elsewhere same valid) past = (subst (IsPast t k n) (sym same) past, valid)

  Steps-IsPast :
      (k n : ℕ) {w w' : World}
      → Steps k w w'
      → IsPast t k n (rows w.db)
      → env.admits w.db ≡ true
      → IsPast t k n (rows w'.db) × (env.admits w'.db ≡ true)
  Steps-IsPast k n done past admitted = (past, admitted)
  Steps-IsPast k n (onward step rest) past admitted =
      let (now, valid) = Step-IsPast k n step past in Steps-IsPast k n rest now valid

  past-stale :
      (b : E) (n : ℕ) (l : List R)
      → version b ≡ some n
      → IsPast t (id b) n l
      → count (is_current b) l ≡ 0
  unfolding version_is
  past-stale b n l v past =
      let few =
        count_le (is_current b) (is_old t (id b) n) l
          (λ r h. ground (arith, v, t.is_current_lem b r)) in
      omega (arith, few, past)

  -- Of the copies of an object that were loaded at one version, at most one is ever saved, as long as no
  -- row is inserted with its id again.
  pub save_race :
      IsEnforcing
      → (a b a' : E) (n : ℕ) (w v w' : World) → env.admits w.db ≡ true
      → version a ≡ some n
      → version b ≡ some n
      → id b ≡ id a
      → save a w ≡ (ok a', v)
      → Steps (id a) v w'
      → (save b w').0 ≡ err t.conflict
  save_race law a b a' n w v w' admitted va vb same h steps =
      let saved = subst (λ o. save_with a o w ≡ (ok a', v)) va (sym (t.save_lem a w) ∙ h) in
      let (changed, valid, one) = t.updated a a' n w v saved in
      let first =
        first-IsPast t a n (rows w.db) va (t.unique w.db (law.enforced w.db admitted)) one in
      let (past, last) =
        Steps-IsPast (id a) n steps (subst (IsPast t (id a) n) (sym changed) first) valid in
      let stale =
        past-stale b n (rows w'.db) vb (subst (λ k. IsPast t k n (rows w'.db)) (sym same) past) in
      ap (λ r. r.0) (t.save_lem b w' ∙ ap (λ o. save_with b o w') vb) ∙ t.stale b n w' stale last
