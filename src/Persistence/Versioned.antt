-- ===== src/Persistence/Versioned.antt =====
-- What the tables of the repositories have in common: rows with an id and a version, and a save under
-- a test of the version.
use hexagonal_auth_service.Base.{
  ℕ, ◌+◌, ◌≡◌, true, none, some, Bool, Option, List, [], ◌∷◌, ◌++◌, count, ◌==◌, ◌&&◌,
}
use hexagonal_auth_service.Errors.{Error}
use hexagonal_auth_service.Exec.{Exec, ok, err}
use hexagonal_auth_service.Env.{Env}
use hexagonal_auth_service.Schema.{Database}
use hexagonal_auth_service.Schema.Constraints.{satisfies, unique_by}
use hexagonal_auth_service.World.{World}
use hexagonal_auth_service.Persistence.Sql.{update_where, version_is}

pub record Versioned ⦃env : Env⦄ (E R : Type 0) : Type 0 where
  pub rows : Database → List R
  pub row_id : R → ℕ
  pub row_version : R → ℕ
  pub id : E → ℕ
  pub version : E → Option ℕ
  pub save : E → Exec World E
  pub save_with : E → Option ℕ → Exec World E
  pub conflict : Error
  pub is_current : E → R → Bool
  pub set_columns : E → ℕ → R → R
  pub new_row : E → R
  pub save_lem : (e : E) (w : World) → save e w ≡ save_with e (version e) w
  pub is_current_lem :
      (e : E) (r : R)
      → is_current e r ≡ (row_id r == id e && version_is (version e) (row_version r))
  pub new_id : (e : E) → row_id (new_row e) ≡ id e
  pub keeps_id : (e : E) (n : ℕ) (r : R) → row_id (set_columns e n r) ≡ row_id r
  pub sets_version : (e : E) (n : ℕ) (r : R) → row_version (set_columns e n r) ≡ n
  pub inserted :
      (e e' : E) (w w' : World)
      → save_with e none w ≡ (ok e', w')
      → (rows w'.db ≡ rows w.db ++ new_row e ∷ []) × (env.admits w'.db ≡ true)
  pub updated :
      (e e' : E) (n : ℕ) (w w' : World)
      → save_with e (some n) w ≡ (ok e', w')
      → (rows w'.db ≡ update_where (is_current e) (set_columns e (n + 1)) (rows w.db))
        × (env.admits w'.db ≡ true)
        × (count (is_current e) (rows w.db) ≡ 1)
  pub stale :
      (e : E) (n : ℕ) (w : World)
      → count (is_current e) (rows w.db) ≡ 0
      → env.admits w.db ≡ true
      → (save_with e (some n) w).0 ≡ err conflict
  pub unique :
      (db : Database)
      → satisfies db ≡ true
      → unique_by (λ a b. row_id a == row_id b) (rows db) ≡ true
