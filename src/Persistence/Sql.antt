-- ===== src/Persistence/Sql.antt =====
-- The statements that the repositories send: SELECT, UPDATE and DELETE with a WHERE clause over the
-- rows of a table, and the check of the result by the database.
use hexagonal_auth_service.Base.{
  ℕ, Bool, false, Option, none, some, List, [], ◌∷◌, ◌==◌, if◌then◌else◌,
}
use hexagonal_auth_service.Errors.{multiple_results_found, integrity_error}
use hexagonal_auth_service.Exec.{Exec, Result, ok, err}
use hexagonal_auth_service.Env.{Env}
use hexagonal_auth_service.Schema.{Database}
use hexagonal_auth_service.World.{World}

module _ {ℓ} {R : Type ℓ} where
  -- `result.scalar_one_or_none()`
  unfoldable pub scalar_one_or_none : List R → Result (Option R)
  scalar_one_or_none [] = ok none
  scalar_one_or_none (r ∷ []) = ok (some r)
  scalar_one_or_none (r ∷ q ∷ rows) = err multiple_results_found

  -- `update(T).where(p).values(...)`
  unfoldable pub update_where : (R → Bool) → (R → R) → List R → List R
  update_where p f [] = []
  update_where p f (r ∷ rows) = (if p r then f r else r) ∷ update_where p f rows

  -- `delete(T).where(p)`
  unfoldable pub delete_where : (R → Bool) → List R → List R
  delete_where p [] = []
  delete_where p (r ∷ rows) = if p r then delete_where p rows else r ∷ delete_where p rows

-- `T.version == expected_version`; a comparison with `None` selects no row
unfoldable pub version_is : Option ℕ → ℕ → Bool
version_is none v = false
version_is (some e) v = v == e

module _ ⦃env : Env⦄ where
  -- A statement leaves the given tables, if these satisfy the constraints.
  unfoldable pub write : Database → Exec World (Unit {0})
  write db w = if env.admits db then (ok tt, record w { db = db }) else (err integrity_error, w)
