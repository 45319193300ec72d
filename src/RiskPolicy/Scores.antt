-- ===== src/RiskPolicy/Scores.antt =====
-- The scores that the policy gives, and when it gives none.
use hexagonal_auth_service.Base.{
  ◌≡◌, ◌≢◌, refl, ◌↔◌, ◌≤◌, true, false, List, Option, none, some, Text, text_eq_iff, text_eq_refl,
  take, arith, ℕ, [], ◌∷◌, inl, inr, Bool-cases,
}
use hexagonal_auth_service.Env.{Env, IpAddress, ipv4, ipv6}
use hexagonal_auth_service.RiskPolicy.{assess_risk, differs, same_ip_range, same_packed, parse_ip}

-- Both values are given, neither is empty, and they are not the same.
pub record IsMismatch (a b : Option Text) : Type 0 where
  pub left : Text
  pub right : Text
  pub given_left : a ≡ some left
  pub given_right : b ≡ some right
  pub some_left : left ≢ []
  pub some_right : right ≢ []
  pub unequal : left ≢ right

differs_sound : (a b : Option Text) → differs a b ≡ true → IsMismatch a b
unfolding differs
differs_sound none b h = cc
differs_sound (some a) none h = cc
differs_sound (some []) (some b) h = cc
differs_sound (some (c ∷ a)) (some []) h = cc
differs_sound (some (c ∷ a)) (some (d ∷ b)) h = record {
  left = c ∷ a;
  right = d ∷ b;
  given_left = refl;
  given_right = refl;
  some_left = λ e. cc;
  some_right = λ e. cc;
  unequal = λ e. ground (arith, text_eq_refl (c ∷ a), e);
}

differs_complete : (a b : Option Text) → IsMismatch a b → differs a b ≡ true
unfolding differs
differs_complete a b h = ground (
  arith,
  h.given_left,
  h.given_right,
  h.some_left,
  h.some_right,
  text_eq_iff h.left h.right,
  h.unequal,
)

not_differs : (a b : Option Text) → ¬ IsMismatch a b → differs a b ≡ false
not_differs a b h = elim (Bool-cases (differs a b)) [
  | inl k ↦ absurd (h (differs_sound a b k))
  | inr k ↦ k
]

module _ ⦃env : Env⦄ where
  -- Both addresses are read as IPv4 addresses that agree in their first three bytes.
  pub record IsSameRange (a b : Option Text) : Type 0 where
    pub left : List ℕ
    pub right : List ℕ
    pub parsed_left : parse_ip a ≡ some (ipv4 left)
    pub parsed_right : parse_ip b ≡ some (ipv4 right)
    pub same_prefix : take 3 left ≡ take 3 right

  same_packed_sound :
      (x y : Option IpAddress)
      → same_packed x y ≡ true
      → (l r : List ℕ) × (x ≡ some (ipv4 l)) × (y ≡ some (ipv4 r)) × (take 3 l ≡ take 3 r)
  unfolding same_packed
  same_packed_sound (some (ipv4 a)) (some (ipv4 b)) h =
      (a, b, refl, refl, (text_eq_iff (take 3 a) (take 3 b)).0 h)
  same_packed_sound (some (ipv4 a)) (some (ipv6 b)) h = cc
  same_packed_sound (some (ipv4 a)) none h = cc
  same_packed_sound (some (ipv6 a)) y h = cc
  same_packed_sound none y h = cc

  same_ip_range_iff : (a b : Option Text) → (same_ip_range a b ≡ true) ↔ IsSameRange a b
  unfolding same_ip_range same_packed
  same_ip_range_iff a b = (
    λ h.
        let (l, r, x, y, z) = same_packed_sound (parse_ip a) (parse_ip b) h in
        record { left = l; right = r; parsed_left = x; parsed_right = y; same_prefix = z },
    λ h.
        rw (h.parsed_left, h.parsed_right)
          ((text_eq_iff (take 3 h.left) (take 3 h.right)).1 h.same_prefix),
  )

  -- The score is at most 5, it is 0 exactly when the addresses are of one IPv4 range of 24 bits and
  -- neither the agents nor the locations are a mismatch, and a missing or unreadable address alone gives 1.
  pub assess_risk_iff :
      (token_ip token_agent token_location current_ip current_agent current_location : Option Text)
      → let risk =
          assess_risk token_ip token_agent token_location current_ip current_agent
            current_location in
        (risk ≤ 5)
        × ((risk ≡ 0) ↔ (
            IsSameRange token_ip current_ip
            × ¬ IsMismatch token_agent current_agent
            × ¬ IsMismatch token_location current_location))
        × (parse_ip token_ip ≡ none → 1 ≤ risk)
  unfolding assess_risk same_ip_range same_packed
  assess_risk_iff a b c d e f = (
    ground arith,
    (
      λ h. (
        (same_ip_range_iff a d).0 (ground arith),
        λ k. ground (arith, differs_complete b e k),
        λ k. ground (arith, differs_complete c f k),
      ),
      λ h.
          let (same, agents, places) = h in
          rw ((same_ip_range_iff a d).1 same, not_differs b e agents, not_differs c f places) refl,
    ),
    λ h. ground arith,
  )
