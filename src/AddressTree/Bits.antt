-- ===== src/AddressTree/Bits.antt =====
-- src/iptree.h: the bits of an address.
use tcpflow.Base.{
  ℕ, zero, suc, ◌+◌, ◌-◌, ◌/◌, ◌%◌, ◌^◌, ◌<◌, ◌≡◌, refl, sym, ap, ◌∙◌, ◌≢◌, true, false, List, [],
  ◌∷◌, arith, ℕ_discrete, length, set, length-set, get_or, ◌==◌, if◌then◌else◌, if_either,
}
use tcpflow.AddressTree.{bit}

-- `setbit`: the bit is set in its byte; an address that is too short is left alone.
unfoldable pub set_bit : List ℕ → ℕ → List ℕ
set_bit addr i =
    if bit addr i then addr else set addr (i / 8) (get_or addr (i / 8) 0 + 2 ^ (7 - i % 8))

pub cases_below_8 {ℓ} :
    (P : ℕ → Type ℓ) → P 0 → P 1 → P 2 → P 3 → P 4 → P 5 → P 6 → P 7 → (k : ℕ) → k < 8 → P k
cases_below_8 P p0 p1 p2 p3 p4 p5 p6 p7 zero h = p0
cases_below_8 P p0 p1 p2 p3 p4 p5 p6 p7 (suc zero) h = p1
cases_below_8 P p0 p1 p2 p3 p4 p5 p6 p7 (suc (suc zero)) h = p2
cases_below_8 P p0 p1 p2 p3 p4 p5 p6 p7 (suc (suc (suc zero))) h = p3
cases_below_8 P p0 p1 p2 p3 p4 p5 p6 p7 (suc (suc (suc (suc zero)))) h = p4
cases_below_8 P p0 p1 p2 p3 p4 p5 p6 p7 (suc (suc (suc (suc (suc zero))))) h = p5
cases_below_8 P p0 p1 p2 p3 p4 p5 p6 p7 (suc (suc (suc (suc (suc (suc zero)))))) h = p6
cases_below_8 P p0 p1 p2 p3 p4 p5 p6 p7 (suc (suc (suc (suc (suc (suc (suc zero))))))) h = p7
cases_below_8 P p0 p1 p2 p3 p4 p5 p6 p7 (suc (suc (suc (suc (suc (suc (suc (suc k)))))))) h =
    absurd (omega (arith, h))

byte_same : (byte k : ℕ) → k < 8 → byte / 2 ^ k % 2 ≡ 0 → (byte + 2 ^ k) / 2 ^ k % 2 ≡ 1
byte_same byte =
    let P : ℕ → Type 0 = λ k. byte / 2 ^ k % 2 ≡ 0 → (byte + 2 ^ k) / 2 ^ k % 2 ≡ 1 in
    cases_below_8 P (λ h. omega (arith, h)) (λ h. omega (arith, h)) (λ h. omega (arith, h))
      (λ h. omega (arith, h)) (λ h. omega (arith, h)) (λ h. omega (arith, h))
      (λ h. omega (arith, h)) (λ h. omega (arith, h))

byte_other :
    (byte k : ℕ)
    → k < 8
    → (j : ℕ) → j < 8
    → byte / 2 ^ k % 2 ≡ 0
    → j ≢ k
    → (byte + 2 ^ k) / 2 ^ j % 2 ≡ byte / 2 ^ j % 2
byte_other byte =
    let Q : ℕ → ℕ → Type 0 =
      λ k j. byte / 2 ^ k % 2 ≡ 0 → j ≢ k → (byte + 2 ^ k) / 2 ^ j % 2 ≡ byte / 2 ^ j % 2 in
    let P : ℕ → Type 0 = λ k. (j : ℕ) → j < 8 → Q k j in
    cases_below_8 P
      (cases_below_8 (Q 0) (λ h ne. absurd (ne refl)) (λ h ne. omega (arith, h))
        (λ h ne. omega (arith, h)) (λ h ne. omega (arith, h)) (λ h ne. omega (arith, h))
        (λ h ne. omega (arith, h)) (λ h ne. omega (arith, h)) (λ h ne. omega (arith, h)))
      (cases_below_8 (Q 1) (λ h ne. omega (arith, h)) (λ h ne. absurd (ne refl))
        (λ h ne. omega (arith, h)) (λ h ne. omega (arith, h)) (λ h ne. omega (arith, h))
        (λ h ne. omega (arith, h)) (λ h ne. omega (arith, h)) (λ h ne. omega (arith, h)))
      (cases_below_8 (Q 2) (λ h ne. omega (arith, h)) (λ h ne. omega (arith, h))
        (λ h ne. absurd (ne refl)) (λ h ne. omega (arith, h)) (λ h ne. omega (arith, h))
        (λ h ne. omega (arith, h)) (λ h ne. omega (arith, h)) (λ h ne. omega (arith, h)))
      (cases_below_8 (Q 3) (λ h ne. omega (arith, h)) (λ h ne. omega (arith, h))
        (λ h ne. omega (arith, h)) (λ h ne. absurd (ne refl)) (λ h ne. omega (arith, h))
        (λ h ne. omega (arith, h)) (λ h ne. omega (arith, h)) (λ h ne. omega (arith, h)))
      (cases_below_8 (Q 4) (λ h ne. omega (arith, h)) (λ h ne. omega (arith, h))
        (λ h ne. omega (arith, h)) (λ h ne. omega (arith, h)) (λ h ne. absurd (ne refl))
        (λ h ne. omega (arith, h)) (λ h ne. omega (arith, h)) (λ h ne. omega (arith, h)))
      (cases_below_8 (Q 5) (λ h ne. omega (arith, h)) (λ h ne. omega (arith, h))
        (λ h ne. omega (arith, h)) (λ h ne. omega (arith, h)) (λ h ne. omega (arith, h))
        (λ h ne. absurd (ne refl)) (λ h ne. omega (arith, h)) (λ h ne. omega (arith, h)))
      (cases_below_8 (Q 6) (λ h ne. omega (arith, h)) (λ h ne. omega (arith, h))
        (λ h ne. omega (arith, h)) (λ h ne. omega (arith, h)) (λ h ne. omega (arith, h))
        (λ h ne. omega (arith, h)) (λ h ne. absurd (ne refl)) (λ h ne. omega (arith, h)))
      (cases_below_8 (Q 7) (λ h ne. omega (arith, h)) (λ h ne. omega (arith, h))
        (λ h ne. omega (arith, h)) (λ h ne. omega (arith, h)) (λ h ne. omega (arith, h))
        (λ h ne. omega (arith, h)) (λ h ne. omega (arith, h)) (λ h ne. absurd (ne refl)))

get_or-set_self : (l : List ℕ) (n v : ℕ) → n < length l → get_or (set l n v) n 0 ≡ v
get_or-set_self [] n v h = absurd (omega (arith, h))
get_or-set_self (x ∷ l) zero v h = refl
get_or-set_self (x ∷ l) (suc n) v h = get_or-set_self l n v (omega (arith, h))

get_or-set_other : (l : List ℕ) (n m v : ℕ) → n ≢ m → get_or (set l n v) m 0 ≡ get_or l m 0
get_or-set_other [] n m v h = refl
get_or-set_other (x ∷ l) zero zero v h = absurd (h refl)
get_or-set_other (x ∷ l) zero (suc m) v h = refl
get_or-set_other (x ∷ l) (suc n) zero v h = refl
get_or-set_other (x ∷ l) (suc n) (suc m) v h = get_or-set_other l n m v (λ e. h (ap suc e))

pub length-set_bit : (addr : List ℕ) (i : ℕ) → length (set_bit addr i) ≡ length addr
unfolding set_bit
length-set_bit addr i =
    if_either (λ (l : List ℕ). length l ≡ length addr) (bit addr i) _ _ (λ e. refl)
      (λ e. length-set addr (i / 8) _)

clear_bit :
    (addr : List ℕ) (i : ℕ) → bit addr i ≡ false → get_or addr (i / 8) 0 / 2 ^ (7 - i % 8) % 2 ≡ 0
clear_bit addr i e = ground arith

pub bit-set_bit_same : (addr : List ℕ) (i : ℕ) → i / 8 < length addr → bit (set_bit addr i) i ≡ true
unfolding set_bit
bit-set_bit_same addr i h =
    if_either (λ l. bit l i ≡ true) (bit addr i) _ _ (λ e. e)
      (λ e.
        let byte = get_or addr (i / 8) 0 in
        let k = 7 - i % 8 in
        let at = get_or-set_self addr (i / 8) (byte + 2 ^ k) h in
        let one = byte_same byte k (omega arith) (clear_bit addr i e) in
        ap (λ b. b / 2 ^ k % 2 == 1) at ∙ ap (λ x. x == 1) one)

pub bit-set_bit_other :
    (addr : List ℕ) (i j : ℕ) → i / 8 < length addr → i ≢ j → bit (set_bit addr i) j ≡ bit addr j
unfolding set_bit
bit-set_bit_other addr i j h ne =
    if_either (λ l. bit l j ≡ bit addr j) (bit addr i) _ _ (λ e. refl)
      (λ e.
        let byte = get_or addr (i / 8) 0 in
        let k = 7 - i % 8 in
        let m = 7 - j % 8 in
        elim (ℕ_discrete (i / 8) (j / 8)) [
          | yes same ↦
              let new = set addr (i / 8) (byte + 2 ^ k) in
              let at : get_or new (j / 8) 0 ≡ byte + 2 ^ k =
                ap (λ n. get_or new n 0) (sym same)
                ∙ get_or-set_self addr (i / 8) (byte + 2 ^ k) h in
              let kept =
                byte_other byte k (omega arith) m (omega arith) (clear_bit addr i e)
                  (λ d. ne (omega (arith, same, d))) in
              ap (λ b. b / 2 ^ m % 2 == 1) at
              ∙ ap (λ x. x == 1) kept
              ∙ ap (λ n. get_or addr n 0 / 2 ^ m % 2 == 1) same
          | no apart ↦
              ap (λ b. b / 2 ^ m % 2 == 1)
                (get_or-set_other addr (i / 8) (j / 8) (byte + 2 ^ k) apart)
        ])
