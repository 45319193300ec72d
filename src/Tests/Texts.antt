-- ===== src/Tests/Texts.antt =====
-- Addresses, passwords and serialized events at concrete texts.
use hexagonal_auth_service.Base.{
  suc, ◌≡◌, ◌≢◌, refl, ◌↔◌, ap, true, false, none, List, [], ◌∷◌, ◌++◌, append-nil, map, codes,
  strip, Text,
}
use hexagonal_auth_service.Exec.{ok}
use hexagonal_auth_service.Env.{Value, null, object, text, scalar, container}
use hexagonal_auth_service.Events.{Event, user_created, refresh_token_reuse_detected}
use hexagonal_auth_service.Events.Kinds.{is_domain}
use hexagonal_auth_service.Events.Serializer.{serialize, deserialize}
use hexagonal_auth_service.Events.Serializer.RoundTrip.{IsReadBack, document, deserialize-serialize}
use hexagonal_auth_service.Validators.Email.{validate_email}
use hexagonal_auth_service.Validators.Email.Language.{IsEmail, validate_email_iff}
use hexagonal_auth_service.Tests.Demo.{demo, demo_dumps, write_value, read_doc, read_code}

validate_email_iff_example :
    (validate_email (codes " Ann@example.com") ≡ ok (codes "ann@example.com")) ↔ (
      (codes " Ann@example.com" ≢ [])
      × (codes "ann@example.com" ≡ demo.lower (strip (codes " Ann@example.com")))
      × IsEmail (codes "ann@example.com"))
validate_email_iff_example = validate_email_iff (codes " Ann@example.com") (codes "ann@example.com")

-- The demonstration's documents are read back as they were written.
read-shifted :
    (k s : Text)
    → read_doc (map (λ c. suc (suc (suc (suc (suc c))))) k ++ s)
      ≡ (k ++ (read_doc s).0, (read_doc s).1, (read_doc s).2)
read-shifted [] s = refl
read-shifted (c ∷ k) s = ap (read_code (suc (suc (suc (suc (suc c)))))) (read-shifted k s)

read-value :
    (v : Value) (d : List (Text × Value)) (s : Text)
    → read_doc s ≡ ([], null, d)
    → read_doc (write_value v ++ s) ≡ ([], v, d)
read-value (text t) d s h = rw (read-shifted t s, h) (rw append-nil refl)
read-value null d s h = rw h refl
read-value scalar d s h = rw h refl
read-value container d s h = rw h refl

read-dumps : (d : List (Text × Value)) → read_doc (demo_dumps d) ≡ ([], null, d)
read-dumps [] = refl
read-dumps ((k, v) ∷ d) =
    let value = read-value v d (demo_dumps d) (read-dumps d) in
    rw (read-shifted k (write_value v ++ demo_dumps d), value) (rw append-nil refl)

pub demo-IsReadBack : IsReadBack
demo-IsReadBack = record {
  loads_dumps =
      λ e. ap (λ (r : Text × Value × List (Text × Value)). object r.2) (read-dumps (document e));
  time_read = λ t. refl;
  uuid_read = λ u. refl;
}

abbrev created : Event
created = record { timestamp = 4; payload = user_created 100 (codes "ann@example.com") }

abbrev reused : Event
reused = record { timestamp = 4; payload = refresh_token_reuse_detected 1 2 none none none }

created-is_domain : is_domain created ≡ true
unfolding is_domain
created-is_domain = refl

reused-is_domain : is_domain reused ≡ false
unfolding is_domain
reused-is_domain = refl

deserialize-serialize_example : deserialize (serialize created) 9 ≡ (ok created, 9)
deserialize-serialize_example = deserialize-serialize demo-IsReadBack created 9 created-is_domain
