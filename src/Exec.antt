-- ===== src/Exec.antt =====
-- Code that mutates a state and may raise. What was written before a raise stays written, so the
-- state comes back beside the error too.
use hexagonal_auth_service.Base.{◌≡◌, refl, Bool, true, false, Option, none, some}
use hexagonal_auth_service.Errors.{Error}

pub data Result {ℓ} (A : Type ℓ) : Type ℓ where
  ok : A → Result A
  err : Error → Result A

abbrev pub Exec {ℓ} : Type ℓ → Type ℓ → Type ℓ
Exec S A = S → Result A × S

module _ {ℓ} {S A : Type ℓ} where
  abbrev pub pure : A → Exec S A
  pure a s = (ok a, s)

  abbrev pub raise : Error → Exec S A
  raise e s = (err e, s)

  abbrev pub lift : Result A → Exec S A
  lift r s = (r, s)

  abbrev pub gets : (S → A) → Exec S A
  gets f s = (ok (f s), s)

  -- `if x is None: raise e`
  abbrev pub or_raise : Option A → Error → Exec S A
  or_raise none e s = (err e, s)
  or_raise (some a) e s = (ok a, s)

abbrev pub modify : {S : Type 0} → (S → S) → Exec S (Unit {0})
modify f s = (ok tt, f s)

-- `if b: raise e`
abbrev pub raise_if : {S : Type 0} → Bool → Error → Exec S (Unit {0})
raise_if true e s = (err e, s)
raise_if false e s = (ok tt, s)

module _ {ℓ} {S A B : Type ℓ} where
  abbrev pub continue : Result A × S → (A → Exec S B) → Result B × S
  continue (ok a, s) f = f a s
  continue (err e, s) f = (err e, s)

  infixl 5 ◌>>=◌ ◌>>◌
  abbrev pub ◌>>=◌ : Exec S A → (A → Exec S B) → Exec S B
  ◌>>=◌ m f s = continue (m s) f

  abbrev pub ◌>>◌ : Exec S A → Exec S B → Exec S B
  m >> n = m >>= λ _. n

  -- A block that returned: its first part returned, and so did the rest from there.
  pub bind-ok :
      (m : Exec S A) (f : A → Exec S B) {s s' : S} {b : B}
      → (m >>= f) s ≡ (ok b, s')
      → (a : A) × (s₁ : S) × (m s ≡ (ok a, s₁)) × (f a s₁ ≡ (ok b, s'))
  bind-ok m f {s} {s'} {b} h = split (m s) refl h
    where
      split :
          (r : Result A × S)
          → m s ≡ r
          → continue r f ≡ (ok b, s')
          → (a : A) × (s₁ : S) × (m s ≡ (ok a, s₁)) × (f a s₁ ≡ (ok b, s'))
      split (ok a, s₁) e k = (a, s₁, e, k)
      split (err c, s₁) e k = cc
