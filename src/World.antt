-- ===== src/World.antt =====
-- What the use cases act on: the database, the audit log in Redis, the queue of notifications in
-- memory, and the number of answers taken from the outside.
pub mod Keeps
pub mod Unchanged
use hexagonal_auth_service.Base.{ℕ, List, Text}
use hexagonal_auth_service.Exec.{Exec, Result, ok, err}
use hexagonal_auth_service.Events.{Event}
use hexagonal_auth_service.Schema.{Database}
use hexagonal_auth_service.Live.{Live, with_self}

pub record World : Type 0 where
  pub calls : ℕ
  pub db : Database
  pub audit : List Text
  pub notifications : List Event

-- a call to the outside, in a use case
abbrev pub draw : {A : Type 0} → Exec ℕ A → Exec World A
draw m w = let (r, n) = m w.calls in (r, record w { calls = n })

-- A method call on an object that the use case holds: the new object comes with the result. A call
-- that raises ends the block, which is the only holder of the object.
abbrev pub call : {E A : Type 0} → Exec (Live E) A → E → Exec World (A × E)
call m e w =
    let (r, s) = m (record { self = e; calls = w.calls }) in
    (with_self r s.self, record w { calls = s.calls })

-- the exit of `async with self.tx`: commit, or roll back and let the exception through
abbrev pub finish : {A : Type 0} → Database → Result A × World → Result A × World
finish before (ok a, w) = (ok a, w)
finish before (err e, w) = (err e, record w { db = before })

-- app/adapters/outbound/persistence/sqlalchemy/transaction.py
unfoldable pub transaction : {A : Type 0} → Exec World A → Exec World A
transaction body w = finish w.db (body w)
