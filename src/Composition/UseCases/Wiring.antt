-- ===== src/Composition/UseCases/Wiring.antt =====
-- Which signatures get a factory, and which factory.
use hexagonal_auth_service.Base.{
  ◌≡◌, ◌≢◌, ◌↔◌, refl, subst, ap, ◌∙◌, ◌⊎◌, inl, inr, false, Bool-cases, Option, none, some, List,
  [], ◌∷◌, Text, codes, text_eq, text_eq_iff, arith,
}
use hexagonal_auth_service.Errors.{Error, value_error}
use hexagonal_auth_service.Exec.{Result, ok, err}
use hexagonal_auth_service.Composition.Nexus.{Provider}
use hexagonal_auth_service.Composition.UseCases.{
  Hint, dependency_providers, Param, FactoryParam, bound_to, factory_param, prepend, build_use_case,
}

-- The factory of a signature: one parameter for each but `self`, in order, with the name and the
-- annotation of it and the provider of its annotation.
pub data Wired : List Param → List FactoryParam → Type 0 where
  nothing : Wired [] []
  self :
      {p : Param} {ps : List Param} {fs : List FactoryParam}
      → p.name ≡ codes "self"
      → Wired ps fs
      → Wired (p ∷ ps) fs
  bound :
      {p : Param} {ps : List Param} {f : FactoryParam} {fs : List FactoryParam}
      → p.name ≢ codes "self"
      → f.name ≡ p.name
      → p.hint ≡ some f.annotation
      → dependency_providers f.annotation ≡ some f.provider
      → Wired ps fs
      → Wired (p ∷ ps) (f ∷ fs)

-- what a parameter is bound to, and back
factory_param-ok :
    (name : Text) (hint : Option Hint) (f : FactoryParam)
    → factory_param name hint ≡ ok f
    → (f.name ≡ name)
      × (hint ≡ some f.annotation)
      × (dependency_providers f.annotation ≡ some f.provider)
unfolding factory_param bound_to
factory_param-ok name none f h = cc
factory_param-ok name (some hint) f h = split (dependency_providers hint) refl h
  where
    split :
        (o : Option Provider)
        → dependency_providers hint ≡ o
        → bound_to name hint o ≡ ok f
        → (f.name ≡ name)
          × (some hint ≡ some f.annotation)
          × (dependency_providers f.annotation ≡ some f.provider)
    split none e k = cc
    split (some p) e k = (ground arith, ground arith, ground arith)

factory_param-bound :
    (p : Param) (f : FactoryParam)
    → f.name ≡ p.name
    → p.hint ≡ some f.annotation
    → dependency_providers f.annotation ≡ some f.provider
    → factory_param p.name p.hint ≡ ok f
unfolding factory_param bound_to
factory_param-bound p f named hinted provided = rw (hinted, provided, ← named) refl

prepend-ok :
    (r : Result FactoryParam) (rest : Result (List FactoryParam)) (fs : List FactoryParam)
    → prepend r rest ≡ ok fs
    → (f : FactoryParam) × (gs : List FactoryParam) × (r ≡ ok f) × (rest ≡ ok gs) × (fs ≡ f ∷ gs)
prepend-ok (err e) rest fs h = cc
prepend-ok (ok f) (err e) fs h = cc
prepend-ok (ok f) (ok gs) fs h = (f, gs, refl, refl, ground arith)

pub build-Wired :
    (ps : List Param) (fs : List FactoryParam) → build_use_case ps ≡ ok fs → Wired ps fs
unfolding build_use_case
build-Wired [] fs h = subst (Wired []) (ground arith) nothing
build-Wired (p ∷ ps) fs h = elim (Bool-cases (text_eq p.name (codes "self"))) [
  | inl same ↦ self ((text_eq_iff p.name (codes "self")).0 same) (build-Wired ps fs (rw same at h))
  | inr other ↦
      let (f, gs, e, k, whole) =
        prepend-ok (factory_param p.name p.hint) (build_use_case ps) fs (rw other at h) in
      let (named, hinted, provided) = factory_param-ok p.name p.hint f e in
      rw whole (
        bound (λ same. ground (arith, text_eq_iff p.name (codes "self"))) named hinted provided
          (build-Wired ps gs k))
]

Wired-build : (ps : List Param) (fs : List FactoryParam) → Wired ps fs → build_use_case ps ≡ ok fs
unfolding build_use_case
Wired-build ps fs nothing = refl
Wired-build ps fs (self {p} {ps = qs} named w) =
    rw ((text_eq_iff p.name (codes "self")).1 named) (Wired-build qs fs w)
Wired-build ps fs (bound {p} {ps = qs} {f} {fs = gs} other named hinted provided w) =
    let differs : text_eq p.name (codes "self") ≡ false =
      ground (arith, text_eq_iff p.name (codes "self")) in
    rw (differs, factory_param-bound p f named hinted provided, Wired-build qs gs w) refl

factory_param-error :
    (name : Text) (hint : Option Hint) (e : Error)
    → factory_param name hint ≡ err e
    → e ≡ value_error
unfolding factory_param bound_to
factory_param-error name hint e h = ground arith

prepend-error :
    (r : Result FactoryParam) (rest : Result (List FactoryParam)) (e : Error)
    → prepend r rest ≡ err e
    → (r ≡ err e) ⊎ (rest ≡ err e)
prepend-error (err e') rest e h = inl (ground arith)
prepend-error (ok f) (err e') e h = inr (ground arith)
prepend-error (ok f) (ok fs) e h = cc

build-error : (ps : List Param) (e : Error) → build_use_case ps ≡ err e → e ≡ value_error
unfolding build_use_case
build-error [] e h = cc
build-error (p ∷ ps) e h = elim (Bool-cases (text_eq p.name (codes "self"))) [
  | inl same ↦ build-error ps e (rw same at h)
  | inr other ↦
      elim (prepend-error (factory_param p.name p.hint) (build_use_case ps) e (rw other at h)) [
        | inl own ↦ factory_param-error p.name p.hint e own
        | inr later ↦ build-error ps e later
      ]
]

-- `build_use_case` returns exactly the factory with one parameter for each parameter of `__init__` but
-- `self`, in order, with its name, its annotation and the provider of this; if there is no such factory
-- because an annotation is missing or has no provider, it raises `ValueError`.
pub build_use_case_iff :
    (ps : List Param)
    → ((fs : List FactoryParam) → (build_use_case ps ≡ ok fs) ↔ Wired ps fs)
      × ((build_use_case ps ≡ err value_error) ⊎ ((fs : List FactoryParam) × Wired ps fs))
build_use_case_iff ps =
    (λ fs. (build-Wired ps fs, Wired-build ps fs), split (build_use_case ps) refl)
  where
    split :
        (r : Result (List FactoryParam))
        → build_use_case ps ≡ r
        → (build_use_case ps ≡ err value_error) ⊎ ((fs : List FactoryParam) × Wired ps fs)
    split (ok fs) h = inr (fs, build-Wired ps fs h)
    split (err e) h = inl (h ∙ ap err (build-error ps e h))
