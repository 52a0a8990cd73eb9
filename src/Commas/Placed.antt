-- ===== src/Commas/Placed.antt =====
-- src/util.cpp: where comma_number_string places its commas.
use tcpflow.Base.{
  ℕ, zero, suc, ◌+◌, ◌*◌, ◌/◌, ◌%◌, ◌^◌, ◌≤◌, ◌<◌, ◌≡◌, refl, sym, ap, subst, ◌⊎◌, inl, inr, true,
  false, some, List, [], ◌∷◌, ◌++◌, arith, length, ltb, leb, ◌==◌, if◌then◌else◌, if_either, All,
}
use tcpflow.Base.Int.{ℤ, pos, negsuc}
use tcpflow.Filename.Print.{decimal, digits_fuel}
use tcpflow.Commas.{take_groups, write_groups, commas, comma_number_string}
use tcpflow.Commas.ReadBack.{
  digits_fuel-append, pad-decimal, take_groups_value, read_number, read_number-commas,
  read_number-minus,
}

-- Counted from the end, each fourth character is a comma, and the others are digits.
abbrev pub Grouped : List ℕ → Type 0
Grouped [] = Unit {0}
Grouped (c ∷ l) =
    (((c ≡ 44) × (length l % 4 ≡ 3)) ⊎ ((48 ≤ c) × (c < 58) × (length l % 4 < 3))) × Grouped l

-- The first character is a digit, and a zero only where it is the only one.
abbrev pub Leading : List ℕ → Type 0
Leading [] = false ≡ true
Leading (c ∷ l) = (48 ≤ c) × (c < 58) × (c ≡ 48 → l ≡ [])

-- A text with a sign only in front.
abbrev pub unsigned : List ℕ → List ℕ
unsigned [] = []
unsigned (c ∷ l) = if c == 45 then l else c ∷ l

write_groups-Grouped :
    (tokens : List ℕ)
    → All (λ n. n < 1000) tokens
    → Grouped (write_groups tokens) × (length (write_groups tokens) % 4 ≡ 0)
unfolding write_groups
write_groups-Grouped [] h = (tt, refl)
write_groups-Grouped (n ∷ tokens) h =
    let (grouped, whole) = write_groups-Grouped tokens h.1 in
    let rest = write_groups tokens in
    subst (λ g. Grouped (44 ∷ g ++ rest) × (suc (length (g ++ rest)) % 4 ≡ 0))
      (sym (pad-decimal n h.0))
      (
        (
          inl (refl, omega (arith, whole)),
          (
            inr (omega arith, omega (arith, h.0), omega (arith, whole)),
            (
              inr (omega arith, omega arith, omega (arith, whole)),
              (inr (omega arith, omega arith, omega (arith, whole)), grouped),
            ),
          ),
        ),
        omega (arith, whole),
      )

-- The numbers of up to `k + 1` digits are those below.
abbrev digits_bound : ℕ → ℕ
digits_bound zero = 10
digits_bound (suc k) = 10 * digits_bound k

one_digit :
    (n : ℕ) (rest : List ℕ)
    → n < 10
    → length rest % 4 < 3
    → (n ≡ 0 → rest ≡ [])
    → Grouped rest
    → Leading ((48 + n) ∷ rest) × Grouped ((48 + n) ∷ rest)
one_digit n rest less place z g = (
  (omega arith, omega (arith, less), λ e. z (omega (arith, e))),
  (inr (omega arith, omega (arith, less), place), g),
)

digits_fuel-Grouped :
    (k fuel n : ℕ) (rest : List ℕ)
    → n < fuel
    → n < digits_bound k
    → k ≤ 2
    → (length rest + k) % 4 ≡ 2
    → (n ≡ 0 → rest ≡ [])
    → Grouped rest
    → Leading (digits_fuel fuel n rest) × Grouped (digits_fuel fuel n rest)
unfolding digits_fuel
digits_fuel-Grouped k zero n rest h b k2 place z g = absurd (omega (arith, h))
digits_fuel-Grouped zero (suc fuel) n rest h b k2 place z g =
    if_either (λ l. Leading l × Grouped l) (ltb n 10) _ _
      (λ small. one_digit n rest b (omega (arith, place)) z g)
      (λ large. absurd (ground (arith, large, b)))
digits_fuel-Grouped (suc k) (suc fuel) n rest h b k2 place z g =
    if_either (λ l. Leading l × Grouped l) (ltb n 10) _ _
      (λ small. one_digit n rest (ground (arith, small)) (omega (arith, place, k2)) z g)
      (λ large.
        let more : 10 ≤ n = ground (arith, large) in
        digits_fuel-Grouped k fuel (n / 10) ((48 + n % 10) ∷ rest) (omega (arith, h, more))
          (omega (arith, b)) (omega (arith, k2)) (omega (arith, place))
          (λ e. absurd (omega (arith, e, more)))
          (inr (omega arith, omega arith, omega (arith, place, k2)), g))

take_groups_lead :
    (fuel input : ℕ) (tokens : List ℕ)
    → (input ≡ 0 → tokens ≡ [])
    → let (lead, groups) = take_groups fuel input tokens in lead ≡ 0 → groups ≡ []
unfolding take_groups
take_groups_lead zero input tokens h = h
take_groups_lead (suc fuel) input tokens h =
    if_either (λ (q : ℕ × List ℕ). q.0 ≡ 0 → q.1 ≡ []) (leb 1000 input) _ _
      (λ large.
        take_groups_lead fuel (input / 1000) (input % 1000 ∷ tokens)
          (λ e. absurd (ground (arith, e, large))))
      (λ small. h)

pub commas-Grouped : (n : ℕ) → Leading (commas n) × Grouped (commas n)
unfolding commas decimal write_groups
commas-Grouped n =
    let (lead, tokens) = take_groups n n [] in
    let (value, below, fit) = take_groups_value n n [] (omega arith) tt in
    let (grouped, whole) = write_groups-Grouped tokens fit in
    subst (λ l. Leading l × Grouped l)
      (sym (digits_fuel-append (suc lead) lead [] (write_groups tokens)))
      (digits_fuel-Grouped 2 (suc lead) lead (write_groups tokens) (omega arith) below (omega arith)
        (omega (arith, whole)) (λ e. ap write_groups (take_groups_lead n n [] (λ e. refl) e))
        grouped)

commas-unsigned : (l : List ℕ) → Leading l → unsigned l ≡ l
commas-unsigned [] h = refl
commas-unsigned (c ∷ l) h = ground (arith, h.0)

-- The values of int64_t whose negation is one too.
abbrev pub Negatable : ℤ → Type 0
Negatable (pos n) = n < 2 ^ 63
Negatable (negsuc n) = suc n < 2 ^ 63

-- For every value of int64_t but the least, comma_number_string returns a text that reads back as
-- the number, sign and all. Behind the sign stands a digit, a zero only on its own; from the end,
-- each fourth character is a comma, and no other.
pub comma_number_string_written :
    (i : ℤ)
    → Negatable i
    → (s : List ℕ) × (comma_number_string i ≡ some s)
      × (read_number s ≡ i)
      × Leading (unsigned s)
      × Grouped (unsigned s)
unfolding comma_number_string
comma_number_string_written (pos n) h =
    let (leads, grouped) = commas-Grouped n in
    let same = sym (commas-unsigned (commas n) leads) in
    (commas n, refl, read_number-commas n, subst Leading same leads, subst Grouped same grouped)
comma_number_string_written (negsuc n) h =
    let (leads, grouped) = commas-Grouped (suc n) in
    (45 ∷ commas (suc n), ground (arith, h), read_number-minus n, leads, grouped)
