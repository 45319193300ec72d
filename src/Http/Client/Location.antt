-- ===== src/Http/Client/Location.antt =====
-- Which country a request is taken to come from.
use hexagonal_auth_service.Base.{
  ℕ, ◌≡◌, ◌≢◌, refl, subst, sym, ap, ◌∙◌, ◌⊎◌, inl, inr, true, false, Bool-cases, Option, none,
  some, List, [], ◌∷◌, ◌++◌, Text, codes, arith, text_eq, text_eq_iff, text_eq_refl, truthy, ◌&&◌,
  not, ◌==◌,
}
use hexagonal_auth_service.Env.{Env}
use hexagonal_auth_service.Http.Client.{
  HttpRequest, split_on, onto_head, first_part, comma, dash, get_location, pick_location, is_text,
  language_country, second_upper,
}
use hexagonal_auth_service.Http.Client.Split.{
  Avoids, IsFirst, first_part-onto_head, first_part-split_on, split_on-append, split_on-avoids,
}
use hexagonal_auth_service.Http.Client.Address.{IsMissing, IsGiven}

-- Cloudflare does not tell the country.
abbrev pub IsUnlocated : Option Text → Type 0
IsUnlocated header = IsMissing header ⊎ (header ≡ some (codes "XX"))

-- a header gives a value, or it is missing
IsGiven-cases : (header : Option Text) → ((value : Text) × IsGiven header value) ⊎ IsMissing header
IsGiven-cases none = inr (inl refl)
IsGiven-cases (some []) = inr (inr refl)
IsGiven-cases (some (c ∷ s)) = inl (c ∷ s, record { given = refl; nonempty = λ e. cc })

IsUnlocated-test :
    (header : Option Text)
    → IsUnlocated header
    → (truthy header && not (is_text header (codes "XX"))) ≡ false
unfolding is_text
IsUnlocated-test header h = ground (arith, text_eq_refl (codes "XX"))

IsMissing-test : (header : Option Text) → IsMissing header → truthy header ≡ false
IsMissing-test header h = ground arith

IsGiven-test : (header : Option Text) (value : Text) → IsGiven header value → truthy header ≡ true
IsGiven-test header [] h = absurd (h.nonempty refl)
IsGiven-test header (c ∷ s) h = rw h.given refl

-- a split text has a first part
split_on-head :
    (sep : ℕ) (s : Text)
    → (rest : List Text) × (split_on sep s ≡ first_part (split_on sep s) ∷ rest)
unfolding split_on
split_on-head sep [] = ([], refl)
split_on-head sep (c ∷ s) = elim (Bool-cases (c == sep)) [
  | inl same ↦ rw same (split_on sep s, refl)
  | inr other ↦
      let (rest, e) = split_on-head sep s in
      rw (other, first_part-onto_head c (split_on sep s)) (rest, ap (onto_head c) e)
]

module _ ⦃env : Env⦄ where
  -- The country of the first language, the texts between the first "-" of what stands before the first
  -- comma and the next "-", if there is one.
  pub data Region (language : Text) : Option Text → Type 0 where
    bare : (first : Text) → IsFirst comma language first → Avoids dash first → Region language none
    tagged :
        (first lang rest country : Text)
        → IsFirst comma language first
        → Avoids dash lang
        → first ≡ lang ++ dash ∷ rest
        → IsFirst dash rest country
        → Region language (some (env.upper country))

  -- Where a location was taken from, by the first source that there is.
  pub data Origin (request : HttpRequest) : Option Text → Type 0 where
    cloudflare :
        (country : Text)
        → IsGiven request.cf_ipcountry country
        → country ≢ codes "XX"
        → Origin request (some country)
    country_code :
        (country : Text)
        → IsUnlocated request.cf_ipcountry
        → IsGiven request.x_country_code country
        → Origin request (some country)
    language :
        (accepted : Text) {location : Option Text}
        → IsUnlocated request.cf_ipcountry
        → IsMissing request.x_country_code
        → IsGiven request.accept_language accepted
        → Region accepted location
        → Origin request location
    unknown :
        IsUnlocated request.cf_ipcountry
        → IsMissing request.x_country_code
        → IsMissing request.accept_language
        → Origin request none

  language-Region :
      (header : Option Text) (language : Text)
      → IsGiven header language
      → Region language (language_country header)
  unfolding language_country
  language-Region header [] h = absurd (h.nonempty refl)
  language-Region header (c ∷ s) h =
      let first = first_part (split_on comma (c ∷ s)) in
      let one : IsFirst comma (c ∷ s) first = first_part-split_on comma (c ∷ s) in
      let two : IsFirst dash first (first_part (split_on dash first)) =
        first_part-split_on dash first in
      rw h.given (elim two.splits [
        | inl whole ↦
            let free : Avoids dash first = subst (Avoids dash) (sym whole) two.avoids in
            rw (split_on-avoids dash first free) (bare first one free)
        | inr (rest, e) ↦
            let (more, parts) = split_on-head dash rest in
            let tag = first_part (split_on dash first) in
            let all : split_on dash first ≡ tag ∷ first_part (split_on dash rest) ∷ more =
              ap (split_on dash) e
              ∙ split_on-append dash tag rest two.avoids
              ∙ ap (◌∷◌ tag) parts in
            subst (λ l. Region (c ∷ s) (second_upper l)) (sym all)
              (tagged first tag rest (first_part (split_on dash rest)) one two.avoids e
                (first_part-split_on dash rest))
      ])

  language-missing : (header : Option Text) → IsMissing header → language_country header ≡ none
  unfolding language_country
  language-missing header h = ground arith

  language-Origin :
      (request : HttpRequest)
      → IsUnlocated request.cf_ipcountry
      → IsMissing request.x_country_code
      → Origin request (language_country request.accept_language)
  unfolding language_country
  language-Origin request u m = elim (IsGiven-cases request.accept_language) [
    | inl (accepted, h) ↦
        language accepted u m h (language-Region request.accept_language accepted h)
    | inr missing ↦
        subst (Origin request) (sym (language-missing request.accept_language missing))
          (unknown u m missing)
  ]

  unlocated-Origin :
      (request : HttpRequest)
      → IsUnlocated request.cf_ipcountry
      → Origin request (get_location request)
  unfolding get_location pick_location
  unlocated-Origin request u =
      rw (IsUnlocated-test request.cf_ipcountry u) (elim (IsGiven-cases request.x_country_code) [
        | inl (country, h) ↦
            rw (IsGiven-test request.x_country_code country h)
              (subst (Origin request) (sym h.given) (country_code country u h))
        | inr m ↦ rw (IsMissing-test request.x_country_code m) (language-Origin request u m)
      ])

  -- The location of a request is the value of CF-IPCountry, if it is given, not empty and not "XX"; else
  -- that of X-Country-Code, if it is given and not empty; else the upper-case region of the first
  -- language in Accept-Language, if there is one; else there is none.
  pub get_location-Origin : (request : HttpRequest) → Origin request (get_location request)
  unfolding get_location pick_location is_text
  get_location-Origin request = elim (IsGiven-cases request.cf_ipcountry) [
    | inr missing ↦ unlocated-Origin request (inl missing)
    | inl (country, h) ↦ elim (Bool-cases (text_eq country (codes "XX"))) [
      | inl unknown_country ↦
          unlocated-Origin request
            (inr (h.given ∙ ap some ((text_eq_iff country (codes "XX")).0 unknown_country)))
      | inr known ↦
          let other : country ≢ codes "XX" =
            λ e. ground (arith, text_eq_iff country (codes "XX")) in
          let shown : get_location request ≡ some country =
            ground (arith, IsGiven-test request.cf_ipcountry country h, h.given) in
          subst (Origin request) (sym shown) (cloudflare country h other)
    ]
  ]
