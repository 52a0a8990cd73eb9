-- ===== src/Tests/Commas.antt =====
-- A number below zero, of three groups.
use tcpflow.Base.{ℕ, ◌≡◌, refl, some, List, [], ◌∷◌, arith}
use tcpflow.Base.Int.{negsuc}
use tcpflow.Commas.{comma_number_string, commas, take_groups, write_groups}
use tcpflow.Commas.ReadBack.{read_number}
use tcpflow.Commas.Placed.{Grouped, Leading, unsigned, comma_number_string_written}
use tcpflow.Filename.Print.{decimal, digits_fuel, pad}

-- -1,234,067
minus_million :
    comma_number_string (negsuc 1234066)
    ≡ some (45 ∷ 49 ∷ 44 ∷ 50 ∷ 51 ∷ 52 ∷ 44 ∷ 48 ∷ 54 ∷ 55 ∷ [])
unfolding comma_number_string commas take_groups write_groups decimal digits_fuel pad
minus_million = refl

comma_number_string_written_example :
    (s : List ℕ) × (comma_number_string (negsuc 1234066) ≡ some s)
    × (read_number s ≡ negsuc 1234066)
    × Leading (unsigned s)
    × Grouped (unsigned s)
comma_number_string_written_example = comma_number_string_written (negsuc 1234066) (omega arith)
