-- ===== src/Base/Sort.antt =====
-- std::sort by a comparator, as insertion sort: which of several equal elements comes first is not
-- specified by C++; here it is the one that came first before.
use tcpflow.Base.{
  ℕ, zero, suc, ◌+◌, ◌≡◌, refl, ap, ◌∙◌, Bool, true, false, List, [], ◌∷◌, arith, length, take,
  drop, if◌then◌else◌, if_either, All, All-map,
}

-- How many elements of a list pass a test.
abbrev pub count_if {ℓ} : {A : Type ℓ} → (A → Bool) → List A → ℕ
count_if p [] = 0
count_if p (x ∷ l) = (if p x then 1 else 0) + count_if p l

-- A strict weak order, which std::sort asks for, and which decides between different elements.
pub record Before {ℓ} {A : Type ℓ} (lt : A → A → Bool) : Type ℓ where
  pub asym : (a b : A) → lt a b ≡ true → lt b a ≡ false
  pub trans : (a b c : A) → lt b a ≡ false → lt c b ≡ false → lt c a ≡ false

module _ {ℓ} {A : Type ℓ} (lt : A → A → Bool) where
  unfoldable pub place_in : A → List A → List A
  place_in a [] = a ∷ []
  place_in a (x ∷ l) = if lt x a then x ∷ place_in a l else a ∷ x ∷ l

  unfoldable pub sort : List A → List A
  unfolding place_in
  sort [] = []
  sort (x ∷ l) = place_in x (sort l)

  -- No element comes before an earlier one.
  abbrev pub IsSorted : List A → Type 0
  IsSorted [] = Unit {0}
  IsSorted (x ∷ l) = All (λ y. lt y x ≡ false) l × IsSorted l

  All-place_in : (P : A → Type 0) (a : A) (l : List A) → P a → All P l → All P (place_in a l)
  unfolding place_in
  All-place_in P a [] p h = (p, tt)
  All-place_in P a (x ∷ l) p h =
      if_either (All P) (lt x a) _ _ (λ e. (h.0, All-place_in P a l p h.1)) (λ e. (p, h))

  place_in-IsSorted : Before lt → (a : A) (l : List A) → IsSorted l → IsSorted (place_in a l)
  unfolding place_in
  place_in-IsSorted o a [] h = (tt, tt)
  place_in-IsSorted o a (x ∷ l) h =
      if_either IsSorted (lt x a) _ _
        (λ e.
          (All-place_in (λ y. lt y x ≡ false) a l (o.asym x a e) h.0, place_in-IsSorted o a l h.1))
        (λ e. ((e, All-map _ _ l (λ y f. o.trans a x y e f) h.0), h))

  pub sort-IsSorted : Before lt → (l : List A) → IsSorted (sort l)
  unfolding sort
  sort-IsSorted o [] = tt
  sort-IsSorted o (x ∷ l) = place_in-IsSorted o x (sort l) (sort-IsSorted o l)

  count_if-place_in :
      (p : A → Bool) (a : A) (l : List A)
      → count_if p (place_in a l) ≡ (if p a then 1 else 0) + count_if p l
  unfolding place_in
  count_if-place_in p a [] = refl
  count_if-place_in p a (x ∷ l) = ground (arith, count_if-place_in p a l)

  pub count_if-sort : (p : A → Bool) (l : List A) → count_if p (sort l) ≡ count_if p l
  unfolding sort
  count_if-sort p [] = refl
  count_if-sort p (x ∷ l) = omega (arith, count_if-place_in p x (sort l), count_if-sort p l)

  pub All-sort : (P : A → Type 0) (l : List A) → All P l → All P (sort l)
  unfolding sort
  All-sort P [] h = tt
  All-sort P (x ∷ l) h = All-place_in P x (sort l) h.0 (All-sort P l h.1)

  pub All-split :
      (P : A → Type 0) (n : ℕ) (l : List A) → All P l → All P (take n l) × All P (drop n l)
  All-split P zero l h = (tt, h)
  All-split P (suc n) [] h = (tt, tt)
  All-split P (suc n) (x ∷ l) h = let (a, b) = All-split P n l h.1 in ((h.0, a), b)

  -- What is cut off behind a place comes before nothing that is kept.
  pub IsSorted-take :
      (n : ℕ) (l : List A)
      → IsSorted l
      → IsSorted (take n l) × All (λ x. All (λ y. lt y x ≡ false) (drop n l)) (take n l)
  IsSorted-take zero l h = (tt, tt)
  IsSorted-take (suc n) [] h = (tt, tt)
  IsSorted-take (suc n) (x ∷ l) h =
      let rest = IsSorted-take n l h.1 in
      let (kept, cut) = All-split (λ y. lt y x ≡ false) n l h.0 in ((kept, rest.0), (cut, rest.1))

  pub count_if-split :
      (p : A → Bool) (n : ℕ) (l : List A)
      → count_if p (take n l) + count_if p (drop n l) ≡ count_if p l
  count_if-split p zero l = omega arith
  count_if-split p (suc n) [] = refl
  count_if-split p (suc n) (x ∷ l) = omega (arith, count_if-split p n l)

  length-place_in : (a : A) (l : List A) → length (place_in a l) ≡ suc (length l)
  unfolding place_in
  length-place_in a [] = refl
  length-place_in a (x ∷ l) = ground (arith, length-place_in a l)

  pub length-sort : (l : List A) → length (sort l) ≡ length l
  unfolding sort
  length-sort [] = refl
  length-sort (x ∷ l) = length-place_in x (sort l) ∙ ap suc (length-sort l)
