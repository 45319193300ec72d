-- ===== src/Validators/Password/Stripped.antt =====
-- What `strip` removes, and the passwords that `validate_password` accepts.
use hexagonal_auth_service.Base.{
  ℕ, ◌≡◌, refl, ap, sym, ◌∙◌, ◌↔◌, true, false, ◌≤◌, [], ◌∷◌, ◌++◌, Text, strip, is_space, lstrip,
  rstrip, keep_last, length, append_assoc, arith, Bool-cases, inl, inr,
}
use hexagonal_auth_service.Exec.{ok}
use hexagonal_auth_service.Validators.Password.{validate_password}

-- a text of white space only
abbrev pub AllSpace : Text → Type 0
AllSpace [] = Unit {0}
AllSpace (c ∷ s) = (is_space c ≡ true) × AllSpace s

-- a text that does not begin with white space
abbrev pub StartsSolid : Text → Type 0
StartsSolid [] = Unit {0}
StartsSolid (c ∷ s) = is_space c ≡ false

-- a text that does not end in white space
abbrev pub EndsSolid : Text → Type 0
EndsSolid [] = Unit {0}
EndsSolid (c ∷ []) = is_space c ≡ false
EndsSolid (c ∷ d ∷ s) = EndsSolid (d ∷ s)

lstrip-splits :
    (s : Text) → (pre : Text) × (s ≡ pre ++ lstrip s) × AllSpace pre × StartsSolid (lstrip s)
unfolding lstrip
lstrip-splits [] = ([], refl, tt, tt)
lstrip-splits (c ∷ s) = elim (Bool-cases (is_space c)) [
  | inl space ↦
      let (pre, e, a, b) = lstrip-splits s in rw space (c ∷ pre, ap (◌∷◌ c) e, (space, a), b)
  | inr solid ↦ rw solid ([], refl, tt, solid)
]

rstrip-splits :
    (s : Text)
    → (post : Text) × (s ≡ rstrip s ++ post)
      × AllSpace post
      × EndsSolid (rstrip s)
      × (StartsSolid s → StartsSolid (rstrip s))
unfolding rstrip
rstrip-splits [] = ([], refl, tt, tt, λ h. tt)
rstrip-splits (c ∷ s) = let (post, e, a, b, k) = rstrip-splits s in keep c s (rstrip s) post e a b
  where
    keep :
        (c : ℕ) (s r post : Text)
        → s ≡ r ++ post
        → AllSpace post
        → EndsSolid r
        → (post' : Text) × (c ∷ s ≡ keep_last c r ++ post')
          × AllSpace post'
          × EndsSolid (keep_last c r)
          × (StartsSolid (c ∷ s) → StartsSolid (keep_last c r))
    keep c s (d ∷ r) post e a b = (post, ap (◌∷◌ c) e, a, b, λ h. h)
    keep c s [] post e a b = elim (Bool-cases (is_space c)) [
      | inl space ↦ rw space (c ∷ post, ap (◌∷◌ c) e, (space, a), tt, λ h. tt)
      | inr solid ↦ rw solid (post, ap (◌∷◌ c) e, a, solid, λ h. solid)
    ]

-- What is left when the white space at both ends is removed.
pub record IsStripped (s t : Text) : Type 0 where
  pub before : Text
  pub after : Text
  pub split : s ≡ before ++ t ++ after
  pub before_space : AllSpace before
  pub after_space : AllSpace after
  pub starts : StartsSolid t
  pub ends : EndsSolid t

pub strip-IsStripped : (s : Text) → IsStripped s (strip s)
unfolding strip
strip-IsStripped s =
    let (pre, e, a, b) = lstrip-splits s in
    let (post, e', a', b', k) = rstrip-splits (lstrip s) in
    record {
      before = pre;
      after = post;
      split = e ∙ ap (λ (x : Text). pre ++ x) e' ∙ sym (append_assoc pre (rstrip (lstrip s)) post);
      before_space = a;
      after_space = a';
      starts = k b;
      ends = b';
    }

-- `validate_password` returns the password without the white space at its ends, exactly when that has
-- 8 to 255 characters.
pub validate_password_iff :
    (p q : Text)
    → ((validate_password p ≡ ok q) ↔ ((q ≡ strip p) × (8 ≤ length q) × (length q ≤ 255)))
      × IsStripped p (strip p)
unfolding validate_password
validate_password_iff p q =
    ((λ h. (ground arith, ground arith, ground arith), λ h. ground arith), strip-IsStripped p)
