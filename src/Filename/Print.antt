-- ===== src/Filename/Print.antt =====
-- What printf and the streams print: decimal and hexadecimal numbers, padded with zeros.
use tcpflow.Base.{
  ℕ, zero, suc, ◌+◌, ◌-◌, ◌/◌, ◌%◌, List, [], ◌∷◌, ◌++◌, length, replicate, ltb, if◌then◌else◌,
}
use tcpflow.Base.Int.{ℤ, pos, negsuc}

-- Most significant digit first; the fuel bounds the number of digits.
unfoldable pub digits_fuel : ℕ → ℕ → List ℕ → List ℕ
digits_fuel zero n rest = rest
digits_fuel (suc fuel) n rest =
    let more = digits_fuel fuel (n / 10) ((48 + n % 10) ∷ rest) in
    if ltb n 10 then (48 + n) ∷ rest else more

-- `%d` and `<<` of a number that is not negative.
unfoldable pub decimal : ℕ → List ℕ
unfolding digits_fuel
decimal n = digits_fuel (suc n) n []

-- `%0*d` and `setw` with `setfill('0')`.
unfoldable pub pad : ℕ → List ℕ → List ℕ
pad width s = replicate (width - length s) 48 ++ s

unfoldable pub signed_decimal : ℤ → List ℕ
unfolding decimal
signed_decimal (pos n) = decimal n
signed_decimal (negsuc n) = 45 ∷ decimal (suc n)

-- `%03d` counts the sign.
unfoldable pub padded3 : ℤ → List ℕ
unfolding decimal pad
padded3 (pos n) = pad 3 (decimal n)
padded3 (negsuc n) = 45 ∷ pad 2 (decimal (suc n))

abbrev pub hex_digit : ℕ → ℕ
hex_digit n = if ltb n 10 then 48 + n else 87 + n

-- `%02x` of a byte.
unfoldable pub hex2 : ℕ → List ℕ
hex2 b = hex_digit (b / 16) ∷ hex_digit (b % 16) ∷ []
