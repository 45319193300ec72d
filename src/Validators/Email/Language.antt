-- ===== src/Validators/Email/Language.antt =====
-- The addresses that `validate_email` accepts, by a description that does not run the code.
use hexagonal_auth_service.Base.{
  ◌≡◌, ◌≢◌, refl, ap, subst, sym, ◌∙◌, ◌↔◌, true, [], ◌∷◌, ◌++◌, Text, strip, arith, Bool-cases,
  inl, inr, ◌==◌,
}
use hexagonal_auth_service.Exec.{ok}
use hexagonal_auth_service.Env.{Env}
use hexagonal_auth_service.Validators.Email.{
  at_sign, dot, no_at, is_nonempty, ends_in_label, matches_domain, matches_rest, matches_email,
  check_format, validate_email,
}

-- a text without "@"
abbrev pub NoAt : Text → Type 0
NoAt [] = Unit {0}
NoAt (c ∷ s) = (c ≢ at_sign) × NoAt s

-- a text of the language of the regular expression: local, "@", domain, ".", label
pub record IsEmail (t : Text) : Type 0 where
  pub local_part : Text
  pub domain : Text
  pub label : Text
  pub split : t ≡ local_part ++ at_sign ∷ (domain ++ dot ∷ label)
  pub some_local : local_part ≢ []
  pub some_domain : domain ≢ []
  pub some_label : label ≢ []
  pub local_ok : NoAt local_part
  pub domain_ok : NoAt domain
  pub label_ok : NoAt label

no_at_iff : (s : Text) → (no_at s ≡ true) ↔ NoAt s
unfolding no_at
no_at_iff [] = (λ h. tt, λ h. refl)
no_at_iff (c ∷ s) = (
  λ h. (λ e. ground arith, (no_at_iff s).0 (ground arith)),
  λ h. ground (arith, (no_at_iff s).1 h.1),
)

NoAt-append : (s t : Text) → NoAt (s ++ t) ↔ (NoAt s × NoAt t)
NoAt-append [] t = (λ h. (tt, h), λ h. h.1)
NoAt-append (c ∷ s) t = (
  λ h. let (a, b) = (NoAt-append s t).0 h.1 in ((h.0, a), b),
  λ h. (h.0.0, (NoAt-append s t).1 (h.0.1, h.1)),
)

is_nonempty_iff : (s : Text) → (is_nonempty s ≡ true) ↔ (s ≢ [])
unfolding is_nonempty
is_nonempty_iff [] = ground arith
is_nonempty_iff (c ∷ s) = ground arith

-- `\.[^@]+` at some place
ends_in_label_sound :
    (s : Text) → ends_in_label s ≡ true → (a label : Text) × (s ≡ a ++ dot ∷ label) × (label ≢ [])
unfolding ends_in_label
ends_in_label_sound [] h = cc
ends_in_label_sound (c ∷ s) h = elim (Bool-cases (ends_in_label s)) [
  | inl later ↦
      let (a, label, e, n) = ends_in_label_sound s later in (c ∷ a, label, ap (◌∷◌ c) e, n)
  | inr now ↦ ([], s, ground arith, λ e. ground arith)
]

ends_in_label_complete :
    (a label : Text) → label ≢ [] → NoAt label → ends_in_label (a ++ dot ∷ label) ≡ true
unfolding ends_in_label
ends_in_label_complete [] label n h =
    ground (arith, (is_nonempty_iff label).1 n, (no_at_iff label).1 h)
ends_in_label_complete (c ∷ a) label n h = ground (arith, ends_in_label_complete a label n h)

matches_rest_sound :
    (s : Text)
    → matches_rest s ≡ true
    → (a d : Text) × (s ≡ a ++ at_sign ∷ d) × NoAt a × (matches_domain d ≡ true)
unfolding matches_rest
matches_rest_sound [] h = cc
matches_rest_sound (c ∷ s) h = elim (Bool-cases (c == at_sign)) [
  | inl here ↦ ([], s, ground arith, tt, ground arith)
  | inr later ↦
      let (a, d, e, n, m) = matches_rest_sound s (ground arith) in
      (c ∷ a, d, ap (◌∷◌ c) e, (λ x. ground arith, n), m)
]

matches_rest_complete :
    (a d : Text) → NoAt a → matches_domain d ≡ true → matches_rest (a ++ at_sign ∷ d) ≡ true
unfolding matches_rest
matches_rest_complete [] d h m = ground arith
matches_rest_complete (c ∷ a) d h m = ground (arith, matches_rest_complete a d h.1 m, h.0)

matches_domain_sound :
    (d : Text)
    → matches_domain d ≡ true
    → (a label : Text) × (d ≡ a ++ dot ∷ label) × (a ≢ []) × (label ≢ []) × NoAt a × NoAt label
unfolding matches_domain
matches_domain_sound [] h = cc
matches_domain_sound (c ∷ s) h =
    let (a, label, e, n) = ends_in_label_sound s (ground arith) in
    let clean : NoAt s = (no_at_iff s).0 (ground arith) in
    let (left, right) = (NoAt-append a (dot ∷ label)).0 (subst NoAt e clean) in
    (c ∷ a, label, ap (◌∷◌ c) e, λ x. cc, n, (λ x. ground arith, left), right.1)

matches_domain_complete :
    (a label : Text)
    → a ≢ []
    → label ≢ []
    → NoAt a
    → NoAt label
    → matches_domain (a ++ dot ∷ label) ≡ true
unfolding matches_domain
matches_domain_complete [] label m n h k = absurd (m refl)
matches_domain_complete (c ∷ a) label m n h k =
    let clean =
      (no_at_iff (a ++ dot ∷ label)).1
        ((NoAt-append a (dot ∷ label)).1 (h.1, (λ x. omega arith, k))) in
    ground (arith, clean, ends_in_label_complete a label n k, h.0)

matches_email_sound : (t : Text) → matches_email t ≡ true → IsEmail t
unfolding matches_email
matches_email_sound [] h = cc
matches_email_sound (c ∷ s) h =
    let (a, d, e, n, m) = matches_rest_sound s (ground arith) in
    let (b, label, e', m₁, m₂, k₁, k₂) = matches_domain_sound d m in
    record {
      local_part = c ∷ a;
      domain = b;
      label = label;
      split = ap (◌∷◌ c) (e ∙ ap (λ (x : Text). a ++ at_sign ∷ x) e');
      some_local = λ x. cc;
      some_domain = m₁;
      some_label = m₂;
      local_ok = (λ x. ground arith, n);
      domain_ok = k₁;
      label_ok = k₂;
    }

matches_email_complete :
    (a d : Text)
    → a ≢ []
    → NoAt a
    → matches_domain d ≡ true
    → matches_email (a ++ at_sign ∷ d) ≡ true
unfolding matches_email
matches_email_complete [] d n h m = absurd (n refl)
matches_email_complete (c ∷ a) d n h m = ground (arith, matches_rest_complete a d h.1 m, h.0)

-- The recogniser accepts exactly the texts of the regular expression: a local part, "@", a domain, "."
-- and a label, none of them empty and none with another "@".
pub matches_email_iff : (t : Text) → (matches_email t ≡ true) ↔ IsEmail t
matches_email_iff t = (
  matches_email_sound t,
  λ h. rw h.split (
      matches_email_complete h.local_part (h.domain ++ dot ∷ h.label) h.some_local h.local_ok (
        matches_domain_complete h.domain h.label h.some_domain h.some_label h.domain_ok
          h.label_ok)),
)

module _ ⦃env : Env⦄ where
  -- `validate_email` returns exactly for a text that is not empty and whose stripped and lowered form
  -- is of the language of the regular expression, and returns that form.
  pub validate_email_iff :
      (t e : Text) → (validate_email t ≡ ok e) ↔ ((t ≢ []) × (e ≡ env.lower (strip t)) × IsEmail e)
  unfolding validate_email
  validate_email_iff [] e = (λ h. cc, λ h. absurd (h.0 refl))
  validate_email_iff (c ∷ s) e = (
    λ h. accepted (env.lower (strip (c ∷ s))) h,
    λ h. rw (← h.1) (rw ((matches_email_iff e).1 h.2) refl),
  )
    where
      accepted : (t : Text) → check_format t ≡ ok e → ((c ∷ s) ≢ []) × (e ≡ t) × IsEmail e
      accepted t h =
          let same : t ≡ e = ground arith in
          (λ x. cc, sym same, subst IsEmail same ((matches_email_iff t).0 (ground arith)))
