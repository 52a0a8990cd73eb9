-- ===== src/Base/Maps.antt =====
-- std::map and std::unordered_map as association lists with a Boolean test of keys.
use mathlib.Core.Path.{subst, ◌≡◌, refl}
use mathlib.Core.Bool.{Bool, true}
use mathlib.Core.Logic.{◌≢◌, ◌↔◌}
use mathlib.Core.List.{List, [], ◌∷◌}
use mathlib.Core.Option.{Option, none, some}
use native.Mathlib.Omega.{arith}
use Prim.Native.Nat.{ℕ, zero, suc, ◌≤◌, ◌<◌}
use tcpflow.Base.Lists.{length}
use tcpflow.Base.Tests.{if_either, if_either, if◌then◌else◌}

-- Equality of keys, as the source's `operator ==`.
pub record Eq {ℓ} (K : Type ℓ) : Type ℓ where
  pub beq : K → K → Bool
  pub beq_iff : (a b : K) → (beq a b ≡ true) ↔ (a ≡ b)

module _ {ℓ κ} {K : Type ℓ} {V : Type κ} (eq : K → K → Bool) where
  -- `find`, with `end()` as `none`.
  unfoldable pub find : K → List (K × V) → Option V
  find k [] = none
  find k ((j, v) ∷ m) = if eq j k then some v else find k m

  -- `m[k] = v`.
  unfoldable pub insert : K → V → List (K × V) → List (K × V)
  insert k v [] = (k, v) ∷ []
  insert k v ((j, w) ∷ m) = if eq j k then (k, v) ∷ m else (j, w) ∷ insert k v m

  -- `erase(k)`: every entry of the key, of which a map has at most one.
  unfoldable pub erase : K → List (K × V) → List (K × V)
  erase k [] = []
  erase k ((j, w) ∷ m) = let rest = erase k m in if eq j k then rest else (j, w) ∷ rest

  -- No key has two entries.
  abbrev pub IsDistinct : List (K × V) → Type κ
  IsDistinct [] = Unit {κ}
  IsDistinct ((j, w) ∷ m) = (find j m ≡ none) × IsDistinct m

  pub erase_absent : (k : K) (m : List (K × V)) → find k m ≡ none → erase k m ≡ m
  unfolding find erase
  erase_absent k [] h = refl
  erase_absent k ((j, w) ∷ m) h = ground (arith, h, erase_absent k m)

module _ {ℓ κ} {K : Type ℓ} {V : Type κ} (e : Eq K) where
  pub find-insert :
      (k j : K) (v : V) (m : List (K × V))
      → find e.beq j (insert e.beq k v m) ≡ (if e.beq k j then some v else find e.beq j m)
  unfolding find insert
  find-insert k j v [] = refl
  find-insert k j v ((i, w) ∷ m) =
      ground (arith, e.beq_iff i k, e.beq_iff i j, e.beq_iff k j, find-insert k j v m)

  pub find-erase :
      (k j : K) (m : List (K × V))
      → find e.beq j (erase e.beq k m) ≡ (if e.beq k j then none else find e.beq j m)
  unfolding find erase
  find-erase k j [] = ground arith
  find-erase k j ((i, w) ∷ m) =
      ground (arith, e.beq_iff i k, e.beq_iff i j, e.beq_iff k j, find-erase k j m)

  pub erase-IsDistinct :
      (k : K) (m : List (K × V)) → IsDistinct e.beq m → IsDistinct e.beq (erase e.beq k m)
  unfolding erase
  erase-IsDistinct k [] v = tt
  erase-IsDistinct k ((j, w) ∷ m) v =
      let rest = erase-IsDistinct k m v.1 in
      if_either (IsDistinct e.beq) (e.beq j k) (erase e.beq k m) ((j, w) ∷ erase e.beq k m)
        (λ same. rest) (λ other. (ground (arith, find-erase k j m, v.0), rest))

  pub insert-IsDistinct :
      (k : K) (v : V) (m : List (K × V))
      → IsDistinct e.beq m
      → IsDistinct e.beq (insert e.beq k v m)
  unfolding insert find
  insert-IsDistinct k v [] h = (refl, tt)
  insert-IsDistinct k v ((j, w) ∷ m) h =
      if_either (IsDistinct e.beq) (e.beq j k) ((k, v) ∷ m) ((j, w) ∷ insert e.beq k v m)
        (λ same. (subst (λ x. find e.beq x m ≡ none) ((e.beq_iff j k).0 same) h.0, h.1))
        (λ other. (
          ground (arith, find-insert k j v m, h.0, e.beq_iff k j, e.beq_iff j k, other),
          insert-IsDistinct k v m h.1,
        ))

  erase_shrinks : (k : K) (m : List (K × V)) → length (erase e.beq k m) ≤ length m
  unfolding erase
  erase_shrinks k [] = omega arith
  erase_shrinks k ((j, w) ∷ m) = ground (arith, erase_shrinks k m)

  erase_found :
      (k : K) (m : List (K × V)) → find e.beq k m ≢ none → length (erase e.beq k m) < length m
  unfolding find erase
  erase_found k [] h = absurd (h refl)
  erase_found k ((j, w) ∷ m) h = ground (arith, h, erase_found k m, erase_shrinks k m)

  -- A map in which `n` different keys are found has `n` entries.
  pub find_count :
      (n : ℕ) (keys : ℕ → K) (m : List (K × V))
      → ((i j : ℕ) → keys i ≡ keys j → i ≡ j)
      → ((i : ℕ) → i < n → find e.beq (keys i) m ≢ none)
      → n ≤ length m
  find_count zero keys m apart found = omega arith
  find_count (suc n) keys m apart found =
      let gone = erase e.beq (keys n) m in
      let less = erase_found (keys n) m (found n (omega arith)) in
      let still : (i : ℕ) → i < n → find e.beq (keys i) gone ≢ none = λ i h. ground (
        arith,
        h,
        find-erase (keys n) (keys i) m,
        e.beq_iff (keys n) (keys i),
        apart n i,
        found i (omega (arith, h)),
      ) in
      omega (arith, less, find_count n keys gone apart still)
