-- ===== src/EventBus/RedisQueue/Window.antt =====
-- The window of a list that Redis counts from its tail.
use mathlib.Core.List.{reverse-cons, reverse-append, reverse-reverse}
use hexagonal_auth_service.Base.{
  ℕ, zero, suc, ◌+◌, ◌-◌, ◌<◌, ◌≡◌, refl, sym, ap, ◌∙◌, List, [], ◌∷◌, ◌++◌, reverse, length, take,
  drop, length-append, arith, append_assoc,
}

module _ {ℓ} {A : Type ℓ} where
  pub take-drop : (n : ℕ) (xs : List A) → take n xs ++ drop n xs ≡ xs
  take-drop zero xs = refl
  take-drop (suc n) [] = refl
  take-drop (suc n) (x ∷ xs) = ap (λ l. x ∷ l) (take-drop n xs)

  pub drop-append : (xs ys : List A) → drop (length xs) (xs ++ ys) ≡ ys
  drop-append [] ys = refl
  drop-append (x ∷ xs) ys = drop-append xs ys

  pub take-append : (xs ys : List A) → take (length xs) (xs ++ ys) ≡ xs
  take-append [] ys = refl
  take-append (x ∷ xs) ys = ap (λ l. x ∷ l) (take-append xs ys)

  pub length-drop : (n : ℕ) (xs : List A) → length (drop n xs) ≡ length xs - n
  length-drop zero xs = omega arith
  length-drop (suc n) [] = omega arith
  length-drop (suc n) (x ∷ xs) = omega (arith, length-drop n xs)

  pub length-reverse : (xs : List A) → length (reverse xs) ≡ length xs
  length-reverse [] = refl
  length-reverse (x ∷ xs) =
      rw reverse-cons (omega (arith, length-append (reverse xs) (x ∷ []), length-reverse xs))

  -- the items from `a` to `b`, both included
  abbrev pub between : List A → ℕ → ℕ → List A
  between xs a b = take (suc b - a) (drop a xs)

  -- the middle of a list
  middle :
      (q m p : List A) (a c : ℕ) → length q ≡ a → length m ≡ c → take c (drop a (q ++ (m ++ p))) ≡ m
  middle q m p a c h k = rw (← h, ← k) (rw (drop-append q (m ++ p)) (take-append m p))

  -- a list as what stands before, in and after a window, seen from its other end
  reverse-parts :
      (ys : List A) (o k : ℕ)
      → reverse ys
        ≡ reverse (drop k (drop o ys)) ++ (reverse (take k (drop o ys)) ++ reverse (take o ys))
  reverse-parts ys o k =
      let p = take o ys in
      let m = take k (drop o ys) in
      let q = drop k (drop o ys) in
      sym (ap reverse (take-drop o ys))
      ∙ reverse-append p (drop o ys)
      ∙ ap (λ l. l ++ reverse p) (sym (ap reverse (take-drop k (drop o ys))) ∙ reverse-append m q)
      ∙ append_assoc (reverse q) (reverse m) (reverse p)

  tail_window :
      (ys : List A) (n o k : ℕ)
      → length ys ≡ n
      → o < n
      → between (reverse ys) (n - 1 - o + 1 - k) (n - 1 - o) ≡ reverse (take k (drop o ys))
  tail_window ys n o k e h =
      let m = take k (drop o ys) in
      let q = drop k (drop o ys) in
      let total = sym (length-append m q) ∙ ap length (take-drop k (drop o ys)) in
      ap (λ l. between l (n - 1 - o + 1 - k) (n - 1 - o)) (reverse-parts ys o k)
      ∙ middle (reverse q) (reverse m) (reverse (take o ys)) _ _
          (omega (arith, length-reverse q, length-drop k (drop o ys), length-drop o ys))
          (omega (arith, length-reverse m, length-drop k (drop o ys), length-drop o ys, total))

  -- The window that is counted from the tail is the window of the reversed list.
  pub between-reverse :
      (xs : List A) (o k : ℕ)
      → o < length xs
      → reverse (between xs (length xs - 1 - o + 1 - k) (length xs - 1 - o))
        ≡ take k (drop o (reverse xs))
  between-reverse xs o k h =
      ap (λ l. reverse (between l (length xs - 1 - o + 1 - k) (length xs - 1 - o)))
        (sym (reverse-reverse xs))
      ∙ ap reverse (tail_window (reverse xs) (length xs) o k (length-reverse xs) h)
      ∙ reverse-reverse (take k (drop o (reverse xs)))
