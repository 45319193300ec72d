-- ===== src/World/Keeps.antt =====
-- What a block of statements keeps, whether it returns or raises: a rule for each kind of statement.
use hexagonal_auth_service.Base.{ℕ, ◌≡◌, Bool, true, false, Option, none, some}
use hexagonal_auth_service.Errors.{Error}
use hexagonal_auth_service.Exec.{
  Exec, Result, ok, err, continue, pure, raise, lift, gets, or_raise, raise_if, ◌>>=◌,
}
use hexagonal_auth_service.Schema.{Database}
use hexagonal_auth_service.Env.{Env}
use hexagonal_auth_service.Live.{Live}
use hexagonal_auth_service.World.{World, draw, call}

pub record Keeps {A : Type 0} (P : World → Type 0) (m : Exec World A) : Type 0 where
  pub at : (w : World) → P w → P (m w).1

module _ {P : World → Type 0} {A : Type 0} where
  pub Keeps-lift : (r : Result A) → Keeps P (lift r)
  Keeps-lift r = record { at = λ w h. h }

  pub Keeps-gets : (f : World → A) → Keeps P (gets f)
  Keeps-gets f = record { at = λ w h. h }

  pub Keeps-or_raise : (o : Option A) (e : Error) → Keeps P (or_raise o e)
  Keeps-or_raise none e = record { at = λ w h. h }
  Keeps-or_raise (some a) e = record { at = λ w h. h }

  pub Keeps-raise : (e : Error) → Keeps P (raise {A = A} e)
  Keeps-raise e = record { at = λ w h. h }

  pub Keeps-pure : (a : A) → Keeps P (pure a)
  Keeps-pure a = record { at = λ w h. h }

module _ {P : World → Type 0} where
  pub Keeps-raise_if : (b : Bool) (e : Error) → Keeps P (raise_if b e)
  Keeps-raise_if true e = record { at = λ w h. h }
  Keeps-raise_if false e = record { at = λ w h. h }

module _ {P : World → Type 0} {A B : Type 0} where
  Keeps-continue :
      (r : Result A) (w : World) (f : A → Exec World B)
      → ((a : A) → Keeps P (f a))
      → P w
      → P (continue (r, w) f).1
  Keeps-continue (ok a) w f kf h = (kf a).at w h
  Keeps-continue (err e) w f kf h = h

  pub Keeps-bind :
      (m : Exec World A) (f : A → Exec World B)
      → Keeps P m
      → ((a : A) → Keeps P (f a))
      → Keeps P (m >>= f)
  Keeps-bind m f km kf = record {
    at = λ w h. let (r, w') = m w in Keeps-continue r w' f kf (km.at w h);
  }

-- What does not depend on the count of calls, and survives every accepted change of the tables.
pub record IsStable ⦃env : Env⦄ (P : World → Type 0) : Type 0 where
  pub at_calls : (w : World) (n : ℕ) → P w → P (record w { calls = n })
  pub at_db : (w : World) (db : Database) → env.admits db ≡ true → P w → P (record w { db = db })

module _ ⦃env : Env⦄ {P : World → Type 0} (stable : IsStable P) where
  pub Keeps-draw : {A : Type 0} (m : Exec ℕ A) → Keeps P (draw m)
  Keeps-draw m = record { at = λ w h. stable.at_calls w (m w.calls).1 h }

  pub Keeps-call : {E A : Type 0} (m : Exec (Live E) A) (e : E) → Keeps P (call m e)
  Keeps-call m e = record {
    at = λ w h. stable.at_calls w (m (record { self = e; calls = w.calls })).1.calls h;
  }

pub ruleset keeps_rules = (
  Keeps-bind, Keeps-pure, Keeps-raise, Keeps-raise_if, Keeps-or_raise, Keeps-gets, Keeps-lift,
  Keeps-draw, Keeps-call,
)
