-- ===== src/Http/Client/Address.antt =====
-- Which address a request is taken to have.
use hexagonal_auth_service.Base.{
  ◌≡◌, ◌≢◌, refl, ap, ◌∙◌, ◌⊎◌, inl, inr, Option, none, some, [], ◌∷◌, ◌++◌, Text, codes, strip,
}
use hexagonal_auth_service.Http.Client.{HttpRequest, get_client_ip, pick_ip, first_part, comma}
use hexagonal_auth_service.Http.Client.Split.{Avoids, IsFirst, first_part-split_on, split_on-append}

-- a header that is absent or empty
abbrev pub IsMissing : Option Text → Type 0
IsMissing header = (header ≡ none) ⊎ (header ≡ some [])

-- a header with a value
pub record IsGiven (header : Option Text) (value : Text) : Type 0 where
  pub given : header ≡ some value
  pub nonempty : value ≢ []

-- Where an address was taken from, by the first source that there is.
pub data Source (request : HttpRequest) (ip : Text) : Type 0 where
  forwarded :
      (value first : Text)
      → IsGiven request.x_forwarded_for value
      → IsFirst comma value first
      → ip ≡ strip first
      → Source request ip
  real :
      (value : Text)
      → IsMissing request.x_forwarded_for
      → IsGiven request.x_real_ip value
      → ip ≡ strip value
      → Source request ip
  peer :
      IsMissing request.x_forwarded_for
      → IsMissing request.x_real_ip
      → request.client_host ≡ some ip
      → Source request ip
  unknown :
      IsMissing request.x_forwarded_for
      → IsMissing request.x_real_ip
      → request.client_host ≡ none
      → ip ≡ codes "unknown"
      → Source request ip

Source-cases :
    (request : HttpRequest) (forwarded_for real_ip host : Option Text)
    → request.x_forwarded_for ≡ forwarded_for
    → request.x_real_ip ≡ real_ip
    → request.client_host ≡ host
    → Source request (pick_ip forwarded_for real_ip host)
unfolding pick_ip
Source-cases q (some (c ∷ s)) r h e f g =
    forwarded (c ∷ s) _ (record { given = e; nonempty = λ x. cc })
      (first_part-split_on comma (c ∷ s)) refl
Source-cases q none (some (c ∷ s)) h e f g =
    real (c ∷ s) (inl e) (record { given = f; nonempty = λ x. cc }) refl
Source-cases q (some []) (some (c ∷ s)) h e f g =
    real (c ∷ s) (inr e) (record { given = f; nonempty = λ x. cc }) refl
Source-cases q none none (some host) e f g = peer (inl e) (inl f) g
Source-cases q none (some []) (some host) e f g = peer (inl e) (inr f) g
Source-cases q (some []) none (some host) e f g = peer (inr e) (inl f) g
Source-cases q (some []) (some []) (some host) e f g = peer (inr e) (inr f) g
Source-cases q none none none e f g = unknown (inl e) (inl f) g refl
Source-cases q none (some []) none e f g = unknown (inl e) (inr f) g refl
Source-cases q (some []) none none e f g = unknown (inr e) (inl f) g refl
Source-cases q (some []) (some []) none e f g = unknown (inr e) (inr f) g refl

-- The address of a request is the stripped text before the first comma of X-Forwarded-For, if that
-- header is given and not empty; else the stripped X-Real-IP, if that is; else the peer's address, if
-- there is a peer; else "unknown".
pub get_client_ip-Source : (request : HttpRequest) → Source request (get_client_ip request)
unfolding get_client_ip
get_client_ip-Source request =
    Source-cases request request.x_forwarded_for request.x_real_ip request.client_host refl refl
      refl

-- A client chooses the address that it is taken to have: for every stripped text without a comma there
-- is a header X-Forwarded-For that gives it, whatever follows the comma, the other headers and the
-- peer are.
pub client_ip_chosen :
    (request : HttpRequest) (ip rest : Text)
    → Avoids comma ip
    → strip ip ≡ ip
    → get_client_ip (record request { x_forwarded_for = some (ip ++ comma ∷ rest) }) ≡ ip
unfolding get_client_ip pick_ip
client_ip_chosen request [] rest h e = e
client_ip_chosen request (c ∷ s) rest h e =
    ap (λ parts. strip (first_part parts)) (split_on-append comma (c ∷ s) rest h) ∙ e
