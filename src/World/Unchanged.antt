-- ===== src/World/Unchanged.antt =====
-- What a refused request may not touch, and why a transaction that raises leaves it alone.
use hexagonal_auth_service.Base.{◌≡◌, refl, ◌∙◌}
use hexagonal_auth_service.Errors.{Error}
use hexagonal_auth_service.Exec.{Exec, Result, ok, err, ◌>>=◌, continue}
use hexagonal_auth_service.Env.{Env}
use hexagonal_auth_service.World.{World, transaction, finish}
use hexagonal_auth_service.World.Keeps.{Keeps, IsStable}

-- The tables, the audit log and the notifications are the same.
pub record IsUnchanged (w w' : World) : Type 0 where
  pub db : w'.db ≡ w.db
  pub audit : w'.audit ≡ w.audit
  pub notifications : w'.notifications ≡ w.notifications

pub IsUnchanged-trans : {u v w : World} → IsUnchanged u v → IsUnchanged v w → IsUnchanged u w
IsUnchanged-trans h k = record {
  db = k.db ∙ h.db;
  audit = k.audit ∙ h.audit;
  notifications = k.notifications ∙ h.notifications;
}

-- what only publishing changes
abbrev pub IsQuiet : World → World → Type 0
IsQuiet w w' = (w'.audit ≡ w.audit) × (w'.notifications ≡ w.notifications)

pub IsQuiet-IsStable : ⦃env : Env⦄ (w : World) → IsStable (IsQuiet w)
IsQuiet-IsStable w = record { at_calls = λ w' n h. h; at_db = λ w' db a h. h }

module _ {A : Type 0} (m : Exec World A) (w : World) (quiet : Keeps (IsQuiet w) m) where
  pub transaction-IsUnchanged :
      (e : Error) → (transaction m w).0 ≡ err e → IsUnchanged w (transaction m w).1
  unfolding transaction
  transaction-IsUnchanged e h = split (m w) (quiet.at w (refl, refl)) h
    where
      split :
          {e : Error} (r : Result A × World)
          → IsQuiet w r.1
          → (finish w.db r).0 ≡ err e
          → IsUnchanged w (finish w.db r).1
      split (ok a, w') q k = cc
      split (err c, w') q k = record { db = refl; audit = q.0; notifications = q.1 }

  -- A use case that raises, where what follows the transaction cannot, has changed nothing.
  pub use_case-IsUnchanged :
      {B : Type 0} (f : A → Exec World B)
      → ((a : A) (w' : World) → (b : B) × ((f a w').0 ≡ ok b))
      → (e : Error) → ((transaction m >>= f) w).0 ≡ err e
      → IsUnchanged w ((transaction m >>= f) w).1
  use_case-IsUnchanged {B} f returns e h = split (transaction m w) transaction-IsUnchanged h
    where
      split :
          {e : Error} (r : Result A × World)
          → ((c : Error) → r.0 ≡ err c → IsUnchanged w r.1)
          → (continue r f).0 ≡ err e
          → IsUnchanged w (continue r f).1
      split (ok a, w') u k = let (b, p) = returns a w' in cc
      split (err c, w') u k = u c refl
