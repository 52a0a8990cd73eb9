-- ===== src/Commas/ReadBack.antt =====
-- src/util.cpp: a reader of what comma_number_string writes.
use tcpflow.Base.{
  ℕ, zero, suc, ◌+◌, ◌-◌, ◌*◌, ◌/◌, ◌%◌, ◌≤◌, ◌<◌, ◌≡◌, refl, sym, ap, subst, ◌∙◌, inl, inr, false,
  List, [], ◌∷◌, ◌++◌, arith, ltb, leb, ◌==◌, if◌then◌else◌, Bool-cases, if_either, All,
}
use tcpflow.Base.Int.{ℤ, pos, negsuc}
use tcpflow.Filename.Print.{decimal, digits_fuel, pad}
use tcpflow.Commas.{take_groups, write_groups, commas}

-- The number that a text continues: commas are skipped.
abbrev pub read_on : ℕ → List ℕ → ℕ
read_on acc [] = acc
read_on acc (c ∷ l) = if c == 44 then read_on acc l else read_on (10 * acc + (c - 48)) l

abbrev pub negated : ℕ → ℤ
negated zero = pos 0
negated (suc n) = negsuc n

abbrev pub read_number : List ℕ → ℤ
read_number [] = pos 0
read_number (c ∷ l) = if c == 45 then negated (read_on 0 l) else pos (read_on 0 (c ∷ l))

read_on-digit :
    (acc d : ℕ) (l : List ℕ) → d < 10 → read_on acc ((48 + d) ∷ l) ≡ read_on (10 * acc + d) l
read_on-digit acc d l h =
    let no_comma : (48 + d == 44) ≡ false = ground arith in
    ap (λ b. if b then read_on acc l else read_on (10 * acc + (48 + d - 48)) l) no_comma
    ∙ ap (λ m. read_on m l) (omega arith)

read_on-digits_fuel :
    (fuel n : ℕ) (rest : List ℕ) → n < fuel → read_on 0 (digits_fuel fuel n rest) ≡ read_on n rest
unfolding digits_fuel
read_on-digits_fuel zero n rest h = absurd (omega (arith, h))
read_on-digits_fuel (suc fuel) n rest h =
    if_either (λ l. read_on 0 l ≡ read_on n rest) (ltb n 10) _ _
      (λ small. read_on-digit 0 n rest (ground arith) ∙ ap (λ m. read_on m rest) (omega arith))
      (λ large.
        read_on-digits_fuel fuel (n / 10) ((48 + n % 10) ∷ rest) (ground (arith, h))
        ∙ read_on-digit (n / 10) (n % 10) rest (omega arith)
        ∙ ap (λ m. read_on m rest) (omega arith))

pub read_on-decimal : (n : ℕ) → read_on 0 (decimal n) ≡ n
unfolding decimal
read_on-decimal n = read_on-digits_fuel (suc n) n [] (omega arith)

pub digits_fuel-append :
    (fuel n : ℕ) (rest l : List ℕ) → digits_fuel fuel n rest ++ l ≡ digits_fuel fuel n (rest ++ l)
unfolding digits_fuel
digits_fuel-append zero n rest l = refl
digits_fuel-append (suc fuel) n rest l = elim (Bool-cases (ltb n 10)) [
  | inl small ↦ ground (arith, small)
  | inr large ↦ ground (arith, large, digits_fuel-append fuel (n / 10) ((48 + n % 10) ∷ rest) l)
]

-- The three digits of a group.
abbrev pub three : ℕ → List ℕ
three n = (48 + n / 100) ∷ (48 + n / 10 % 10) ∷ (48 + n % 10) ∷ []

same3 :
    (a b c x y z : ℕ) → a ≡ x → b ≡ y → c ≡ z → ◌≡◌ {A = List ℕ} (a ∷ b ∷ c ∷ []) (x ∷ y ∷ z ∷ [])
same3 a b c x y z e f g = cc

pad_digits :
    (n : ℕ) (rest : List ℕ)
    → n < 1000
    → pad 3 (
        if ltb n 10
        then (48 + n) ∷ []
        else if ltb (n / 10) 10
        then (48 + n / 10) ∷ (48 + n % 10) ∷ []
        else if ltb (n / 10 / 10) 10
        then (48 + n / 10 / 10) ∷ (48 + n / 10 % 10) ∷ (48 + n % 10) ∷ []
        else rest)
      ≡ three n
unfolding pad
pad_digits n rest h =
    let padded : List ℕ → Type 0 = λ l. pad 3 l ≡ three n in
    if_either padded (ltb n 10) _ _
      (λ e. same3 _ _ _ _ _ _ (ground arith) (ground arith) (ground arith))
      (λ e.
        if_either padded (ltb (n / 10) 10) _ _
          (λ f. same3 _ _ _ _ _ _ (ground arith) (ground arith) refl)
          (λ f.
            if_either padded (ltb (n / 10 / 10) 10) _ _
              (λ g. same3 _ _ _ _ _ _ (omega arith) refl refl) (λ g. absurd (ground arith))))

pub pad-decimal : (n : ℕ) → n < 1000 → pad 3 (decimal n) ≡ three n
unfolding pad decimal digits_fuel
pad-decimal zero h = refl
pad-decimal (suc zero) h = refl
pad-decimal (suc (suc n)) h = pad_digits (suc (suc n)) _ h

-- What the groups stand for, after a number.
abbrev pub groups_value : ℕ → List ℕ → ℕ
groups_value acc [] = acc
groups_value acc (n ∷ tokens) = groups_value (1000 * acc + n) tokens

read_on-three :
    (acc n : ℕ) (l : List ℕ) → n < 1000 → read_on acc (three n ++ l) ≡ read_on (1000 * acc + n) l
read_on-three acc n l h =
    let ones = (48 + n % 10) ∷ l in
    read_on-digit acc (n / 100) ((48 + n / 10 % 10) ∷ ones) (omega arith)
    ∙ read_on-digit (10 * acc + n / 100) (n / 10 % 10) ones (omega arith)
    ∙ read_on-digit (10 * (10 * acc + n / 100) + n / 10 % 10) (n % 10) l (omega arith)
    ∙ ap (λ m. read_on m l) (omega arith)

read_on-write_groups :
    (acc : ℕ) (tokens : List ℕ)
    → All (λ n. n < 1000) tokens
    → read_on acc (write_groups tokens) ≡ groups_value acc tokens
unfolding write_groups
read_on-write_groups acc [] h = refl
read_on-write_groups acc (n ∷ tokens) h =
    ap (λ l. read_on acc (l ++ write_groups tokens)) (pad-decimal n h.0)
    ∙ read_on-three acc n (write_groups tokens) h.0
    ∙ read_on-write_groups (1000 * acc + n) tokens h.1

-- The loop keeps the value, and leaves a first group below 1000.
pub take_groups_value :
    (fuel input : ℕ) (tokens : List ℕ)
    → input ≤ fuel
    → All (λ n. n < 1000) tokens
    → let (lead, groups) = take_groups fuel input tokens in
      (groups_value lead groups ≡ groups_value input tokens)
      × (lead < 1000)
      × All (λ n. n < 1000) groups
unfolding take_groups
take_groups_value zero input tokens h v = (refl, omega arith, v)
take_groups_value (suc fuel) input tokens h v =
    let kept : ℕ × List ℕ → Type 0 = λ q.
      (groups_value q.0 q.1 ≡ groups_value input tokens) × (q.0 < 1000) × All (λ n. n < 1000) q.1 in
    if_either kept (leb 1000 input) _ _
      (λ large.
        let r =
          take_groups_value fuel (input / 1000) (input % 1000 ∷ tokens) (ground (arith, h))
            (omega arith, v) in
        (r.0 ∙ ap (λ m. groups_value m tokens) (omega arith), r.1, r.2))
      (λ small. (refl, ground arith, v))

read_on-commas : (n : ℕ) → read_on 0 (commas n) ≡ n
unfolding commas decimal
read_on-commas n =
    let r = take_groups_value n n [] (omega arith) tt in
    let lead = (take_groups n n []).0 in
    let tokens = (take_groups n n []).1 in
    ap (read_on 0) (digits_fuel-append (suc lead) lead [] (write_groups tokens))
    ∙ read_on-digits_fuel (suc lead) lead (write_groups tokens) (omega arith)
    ∙ read_on-write_groups lead tokens r.2
    ∙ r.0

-- A text that does not begin with a sign.
abbrev NoSign : List ℕ → Type 0
NoSign [] = Unit {0}
NoSign (c ∷ l) = (c == 45) ≡ false

digits_fuel-NoSign : (fuel n : ℕ) (rest : List ℕ) → n < fuel → NoSign (digits_fuel fuel n rest)
unfolding digits_fuel
digits_fuel-NoSign zero n rest h = absurd (omega (arith, h))
digits_fuel-NoSign (suc fuel) n rest h =
    if_either NoSign (ltb n 10) _ _ (λ small. ground arith)
      (λ large. digits_fuel-NoSign fuel (n / 10) ((48 + n % 10) ∷ rest) (ground (arith, h)))

commas-NoSign : (n : ℕ) → NoSign (commas n)
unfolding commas decimal
commas-NoSign n =
    let (lead, tokens) = take_groups n n [] in
    subst NoSign (sym (digits_fuel-append (suc lead) lead [] (write_groups tokens)))
      (digits_fuel-NoSign (suc lead) lead (write_groups tokens) (omega arith))

read_number-NoSign : (l : List ℕ) → NoSign l → read_number l ≡ pos (read_on 0 l)
read_number-NoSign [] h = refl
read_number-NoSign (c ∷ l) h =
    ap (λ b. if b then negated (read_on 0 l) else pos (read_on 0 (c ∷ l))) h

pub read_number-commas : (n : ℕ) → read_number (commas n) ≡ pos n
read_number-commas n = read_number-NoSign (commas n) (commas-NoSign n) ∙ ap pos (read_on-commas n)

pub read_number-minus : (n : ℕ) → read_number (45 ∷ commas (suc n)) ≡ negsuc n
read_number-minus n = ap negated (read_on-commas (suc n))
