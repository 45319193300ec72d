-- ===== src/Composition/UseCases/Sessions.antt =====
-- routers/dependencies/cases.py and app/adapters/nexus.py: the objects that a use case gets in a request.
use hexagonal_auth_service.Base.{
  ℕ, ◌≤◌, ◌<◌, ◌≡◌, ◌≢◌, codes, text_eq, text_eq_iff, refl, sym, ap, subst, ◌∙◌, none, some, List,
  [], ◌∷◌, map, arith,
}
use mathlib.Core.List.{Memᴰ}
use mathlib.Core.List.Memᴰ.{head, tail}
use hexagonal_auth_service.Exec.{ok}
use hexagonal_auth_service.Composition.Settings.{Settings}
use hexagonal_auth_service.Composition.Nexus
use hexagonal_auth_service.Composition.Nexus.{
  Provider, Object, Nexus, parameters, kept_or, made_of, provide, get_session, get_transaction,
}
use hexagonal_auth_service.Composition.UseCases
use hexagonal_auth_service.Composition.UseCases.{
  UseCase, FactoryParam, init, build_use_case, factory, dependency_providers, Param, self_param, tx,
}
use hexagonal_auth_service.Composition.UseCases.Wiring.{Wired, self, bound, build-Wired}

-- the providers that a request calls: those of the factory's parameters, and theirs
pub data Needs (ps : List FactoryParam) : Provider → Type 0 where
  direct : {f : FactoryParam} → Memᴰ f ps → Needs ps f.provider
  indirect : {p q : Provider} → Needs ps q → Memᴰ p (parameters q) → Needs ps p

same-some : {A : Type 0} {x y : A} → some x ≡ some y → y ≡ x
same-some h = ground arith

module _ (settings : Settings) where
  -- The states of the module's variables: the first, and those after the calls of providers.
  pub data Reachable : Nexus → Type 0 where
    loaded : Reachable (record { issuer = none; verifier = none; sessions = 0 })
    provided :
        (p : Provider) (args : List Object) {at : Nexus}
        → Reachable at
        → Reachable (provide settings p args at).1

  -- What FastAPI documents of `Depends`: in one request it calls each provider that is needed, with the
  -- values of the provider's own dependencies, and everybody who depends on it gets the one value.
  pub record IsRequest (ps : List FactoryParam) (before after : Nexus) (value : Provider → Object)
      : Type 0 where
    pub called :
        (p : Provider)
        → Needs ps p
        → (at next : Nexus) × Reachable at
          × (before.sessions ≤ at.sessions)
          × (next.sessions ≤ after.sessions)
          × (provide settings p (map value (parameters p)) at ≡ (some (value p), next))

  abbrev pub issuer_object : Object
  issuer_object = Nexus.access_token_issuer settings.jwt_secret settings.jwt_algorithm

  abbrev pub verifier_object : Object
  verifier_object = Nexus.access_token_verifier settings.jwt_secret settings.jwt_algorithm

  -- What is kept was made from the settings.
  pub record IsConsistent (nexus : Nexus) : Type 0 where
    pub issuer : kept_or nexus.issuer issuer_object ≡ issuer_object
    pub verifier : kept_or nexus.verifier verifier_object ≡ verifier_object

  -- what each provider's value is, under the session `n`
  unfoldable pub object : ℕ → Provider → Object
  object n Nexus.get_config = Nexus.config
  object n Nexus.get_access_token_issuer = issuer_object
  object n Nexus.get_access_token_verifier = verifier_object
  object n Nexus.get_redis_client = Nexus.redis_client
  object n Nexus.get_event_queue = Nexus.event_queue
  object n Nexus.get_notification_queue = Nexus.notification_queue
  object n Nexus.get_event_publisher =
      Nexus.event_publisher Nexus.event_queue Nexus.notification_queue
  object n Nexus.get_session = Nexus.session n
  object n Nexus.get_transaction = Nexus.transaction (Nexus.session n)
  object n Nexus.get_user_repo = Nexus.user_repo (Nexus.session n)
  object n Nexus.get_ott_repo = Nexus.ott_repo (Nexus.session n)
  object n Nexus.get_refresh_token_repo = Nexus.refresh_token_repo (Nexus.session n)

  provide-IsConsistent :
      (p : Provider) (args : List Object) (nexus : Nexus)
      → IsConsistent nexus
      → IsConsistent (provide settings p args nexus).1
  unfolding provide kept_or
  provide-IsConsistent Nexus.get_config args nexus h = h
  provide-IsConsistent Nexus.get_redis_client args nexus h = h
  provide-IsConsistent Nexus.get_event_queue args nexus h = h
  provide-IsConsistent Nexus.get_notification_queue args nexus h = h
  provide-IsConsistent Nexus.get_event_publisher args nexus h = h
  provide-IsConsistent Nexus.get_transaction args nexus h = h
  provide-IsConsistent Nexus.get_user_repo args nexus h = h
  provide-IsConsistent Nexus.get_ott_repo args nexus h = h
  provide-IsConsistent Nexus.get_refresh_token_repo args nexus h = h
  provide-IsConsistent Nexus.get_access_token_issuer (o ∷ args) nexus h = h
  provide-IsConsistent Nexus.get_access_token_verifier (o ∷ args) nexus h = h
  provide-IsConsistent Nexus.get_session (o ∷ args) nexus h = h
  provide-IsConsistent Nexus.get_access_token_issuer [] nexus h = record {
    issuer = h.issuer;
    verifier = h.verifier;
  }
  provide-IsConsistent Nexus.get_access_token_verifier [] nexus h = record {
    issuer = h.issuer;
    verifier = h.verifier;
  }
  provide-IsConsistent Nexus.get_session [] nexus h = record {
    issuer = h.issuer;
    verifier = h.verifier;
  }

  -- Whenever the module has kept an issuer or a verifier of access tokens, it was made with the secret
  -- and the algorithm of the settings, so that the verifier reads what the issuer signs.
  pub Reachable-IsConsistent : (nexus : Nexus) → Reachable nexus → IsConsistent nexus
  unfolding kept_or
  Reachable-IsConsistent nexus loaded = record { issuer = refl; verifier = refl }
  Reachable-IsConsistent nexus (provided p args r) =
      provide-IsConsistent p args _ (Reachable-IsConsistent _ r)

  module _ (ps : List FactoryParam) (before after : Nexus) (value : Provider → Object)
      (request : IsRequest ps before after value) where
    -- the session of the request
    session-made :
        Needs ps get_session
        → (n : ℕ) × (before.sessions ≤ n)
          × (n < after.sessions)
          × (value get_session ≡ Nexus.session n)
    unfolding provide parameters
    session-made needs =
        let (at, next, r, low, high, e) = request.called get_session needs in
        (at.sessions, low, ground arith, ground arith)

    -- what a needed provider has returned
    returned :
        (p : Provider)
        → Needs ps p
        → (at : Nexus) × IsConsistent at
          × ((provide settings p (map value (parameters p)) at).0 ≡ some (value p))
    returned p needs =
        let (at, _, r, _, _, e) = request.called p needs in
        (at, Reachable-IsConsistent at r, ap (λ x. x.0) e)

    value-object :
        (n : ℕ) (p : Provider)
        → value get_session ≡ Nexus.session n
        → Needs ps p
        → value p ≡ object n p
    unfolding provide made_of object parameters
    value-object n Nexus.get_config s needs = same-some (returned Nexus.get_config needs).2
    value-object n Nexus.get_redis_client s needs =
        same-some (returned Nexus.get_redis_client needs).2
    value-object n Nexus.get_event_queue s needs =
        same-some (returned Nexus.get_event_queue needs).2
    value-object n Nexus.get_notification_queue s needs =
        same-some (returned Nexus.get_notification_queue needs).2
    value-object n Nexus.get_access_token_issuer s needs =
        let (at, h, e) = returned Nexus.get_access_token_issuer needs in same-some e ∙ h.issuer
    value-object n Nexus.get_access_token_verifier s needs =
        let (at, h, e) = returned Nexus.get_access_token_verifier needs in same-some e ∙ h.verifier
    value-object n get_session s needs = s
    value-object n Nexus.get_transaction s needs =
        same-some (returned Nexus.get_transaction needs).2 ∙ ap Nexus.transaction s
    value-object n Nexus.get_user_repo s needs =
        same-some (returned Nexus.get_user_repo needs).2 ∙ ap Nexus.user_repo s
    value-object n Nexus.get_ott_repo s needs =
        same-some (returned Nexus.get_ott_repo needs).2 ∙ ap Nexus.ott_repo s
    value-object n Nexus.get_refresh_token_repo s needs =
        same-some (returned Nexus.get_refresh_token_repo needs).2 ∙ ap Nexus.refresh_token_repo s
    value-object n Nexus.get_event_publisher s needs =
        let (_, _, e) = returned Nexus.get_event_publisher needs in
        let (_, _, q) = returned Nexus.get_event_queue (indirect needs (head refl)) in
        let (_, _, r) = returned Nexus.get_notification_queue (indirect needs (tail (head refl))) in
        ground arith

    factory-objects :
        (n : ℕ) (fs : List FactoryParam)
        → value get_session ≡ Nexus.session n
        → ((f : FactoryParam) → Memᴰ f fs → Needs ps f.provider)
        → factory fs value ≡ map (λ (f : FactoryParam). (f.name, object n f.provider)) fs
    unfolding factory
    factory-objects n [] s needs = refl
    factory-objects n (f ∷ fs) s needs =
        rw (value-object n f.provider s (needs f (head refl))) (
          ap (◌∷◌ (f.name, object n f.provider)) (factory-objects n fs s (λ g m. needs g (tail m))))

tx_not_self : codes "tx" ≢ codes "self"
unfolding codes text_eq
tx_not_self h = let e = (text_eq_iff (codes "tx") (codes "self")).1 h in cc

-- every use case is given a transaction
Wired-transaction :
    (rest : List Param) (ps : List FactoryParam)
    → Wired (self_param ∷ tx ∷ rest) ps
    → (f : FactoryParam) × Memᴰ f ps × (f.provider ≡ get_transaction)
unfolding dependency_providers
Wired-transaction rest ps (bound other named hinted by w) = absurd (other refl)
Wired-transaction rest ps (self same (self named w)) = absurd (tx_not_self named)
Wired-transaction rest ps (self same (bound {f} other named hinted by w)) =
    (f, head refl, ground arith)

init-tx : (c : UseCase) → (rest : List Param) × (init c ≡ self_param ∷ tx ∷ rest)
unfolding init
init-tx UseCases.register = (_, refl)
init-tx UseCases.verify_email = (_, refl)
init-tx UseCases.login = (_, refl)
init-tx UseCases.refresh_token = (_, refl)
init-tx UseCases.revoke_token = (_, refl)
init-tx UseCases.change_password = (_, refl)
init-tx UseCases.password_recover_request = (_, refl)
init-tx UseCases.password_recover = (_, refl)

has-transaction :
    (c : UseCase) {ps : List FactoryParam}
    → build_use_case (init c) ≡ ok ps
    → (f : FactoryParam) × Memᴰ f ps × (f.provider ≡ get_transaction)
has-transaction c {ps} h =
    let (rest, e) = init-tx c in
    Wired-transaction rest ps (build-Wired _ ps (ap build_use_case (sym e) ∙ h))

-- In every request for every use case, one session, made in this request, stands in the transaction and
-- in all repositories that the use case is given; the configuration, the publisher of events on the one
-- queue of the process and the one of notifications, and the issuer or verifier made from the settings
-- are the rest of what it is given.
pub use_case_objects :
    (settings : Settings) (c : UseCase) (before after : Nexus) (value : Provider → Object)
    {ps : List FactoryParam}
    → build_use_case (init c) ≡ ok ps
    → IsRequest settings ps before after value
    → (n : ℕ) × (before.sessions ≤ n)
      × (n < after.sessions)
      × (factory ps value ≡ map (λ (f : FactoryParam). (f.name, object settings n f.provider)) ps)
unfolding parameters
use_case_objects settings c before after value {ps} h request =
    let (f, there, own) = has-transaction c h in
    let (n, low, high, e) =
      session-made settings ps before after value request
        (indirect (subst (Needs ps) own (direct there)) (head refl)) in
    (n, low, high, factory-objects settings ps before after value request n ps e (λ g m. direct m))
