-- ===== src/Http/Client/Split.antt =====
-- What `split` gives: the pieces between the separators.
use hexagonal_auth_service.Base.{
  ℕ, ◌≡◌, ◌≢◌, refl, ap, ◌⊎◌, inl, inr, Bool-cases, List, [], ◌∷◌, ◌++◌, Text, arith, ◌==◌, ==_iff,
}
use hexagonal_auth_service.Http.Client.{split_on, onto_head, first_part}

-- a character that does not occur
abbrev pub Avoids : ℕ → Text → Type 0
Avoids sep [] = Unit
Avoids sep (c ∷ s) = (c ≢ sep) × Avoids sep s

-- A text up to its first separator, if it has one.
pub record IsFirst (sep : ℕ) (s first : Text) : Type 0 where
  pub avoids : Avoids sep first
  pub splits : (s ≡ first) ⊎ ((rest : Text) × (s ≡ first ++ sep ∷ rest))

pub first_part-onto_head :
    (c : ℕ) (parts : List Text) → first_part (onto_head c parts) ≡ c ∷ first_part parts
first_part-onto_head c [] = refl
first_part-onto_head c (t ∷ parts) = refl

IsFirst-cons :
    (sep c : ℕ) (s first : Text) → c ≢ sep → IsFirst sep s first → IsFirst sep (c ∷ s) (c ∷ first)
IsFirst-cons sep c s first n h = record { avoids = (n, h.avoids); splits = longer h.splits }
  where
    longer :
        (s ≡ first) ⊎ ((rest : Text) × (s ≡ first ++ sep ∷ rest))
        → (c ∷ s ≡ c ∷ first) ⊎ ((rest : Text) × (c ∷ s ≡ c ∷ first ++ sep ∷ rest))
    longer (inl e) = inl (ap (◌∷◌ c) e)
    longer (inr (rest, e)) = inr (rest, ap (◌∷◌ c) e)

pub first_part-split_on : (sep : ℕ) (s : Text) → IsFirst sep s (first_part (split_on sep s))
unfolding split_on
first_part-split_on sep [] = record { avoids = tt; splits = inl refl }
first_part-split_on sep (c ∷ s) = elim (Bool-cases (c == sep)) [
  | inl same ↦
      rw same (record { avoids = tt; splits = inr (s, ap (λ d. d ∷ s) ((==_iff c sep).0 same)) })
  | inr other ↦
      rw (other, first_part-onto_head c (split_on sep s))
        (IsFirst-cons sep c s _ (λ e. ground arith) (first_part-split_on sep s))
]

-- A text without the separator, and what follows one.
pub split_on-avoids : (sep : ℕ) (t : Text) → Avoids sep t → split_on sep t ≡ t ∷ []
unfolding split_on
split_on-avoids sep [] h = refl
split_on-avoids sep (c ∷ t) h = ground (arith, split_on-avoids sep t h.1, h.0)

pub split_on-append :
    (sep : ℕ) (t rest : Text)
    → Avoids sep t
    → split_on sep (t ++ sep ∷ rest) ≡ t ∷ split_on sep rest
unfolding split_on
split_on-append sep [] rest h = ground arith
split_on-append sep (c ∷ t) rest h = ground (arith, split_on-append sep t rest h.1, h.0)

pub Avoids-append : (sep : ℕ) (s t : Text) → Avoids sep s → Avoids sep t → Avoids sep (s ++ t)
Avoids-append sep [] t h k = k
Avoids-append sep (c ∷ s) t h k = (h.0, Avoids-append sep s t h.1 k)
