-- ===== src/Live.antt =====
-- A live Python object with the count of calls to the outside: the state of the entities' methods.
use hexagonal_auth_service.Base.{ℕ}
use hexagonal_auth_service.Exec.{Result, ok, err, Exec}

pub record Live (E : Type 0) : Type 0 where
  pub self : E
  pub calls : ℕ

module _ {E A : Type 0} where
  -- a call to the outside, in a method
  abbrev pub outside : Exec ℕ A → Exec (Live E) A
  outside m s = let (r, n) = m s.calls in (r, record s { calls = n })

  -- the value of a method that returned, with the object as it left it
  abbrev pub with_self : Result A → E → Result (A × E)
  with_self (ok a) e = ok (a, e)
  with_self (err c) e = err c

-- `self`
abbrev pub this : {E : Type 0} → Exec (Live E) E
this s = (ok s.self, s)

-- assignments to attributes of `self`
abbrev pub assign : {E : Type 0} → (E → E) → Exec (Live E) (Unit {0})
assign f s = (ok tt, record s { self = f s.self })
