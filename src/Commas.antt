-- ===== src/Commas.antt =====
-- src/util.cpp: comma_number_string.
pub mod ReadBack
pub mod Placed
use tcpflow.Base.{
  ℕ, zero, suc, ◌+◌, ◌-◌, ◌*◌, ◌/◌, ◌%◌, ◌^◌, ◌≤◌, ◌<◌, min, max, ◌≡◌, refl, sym, ap, ap₂, subst,
  ◌∙◌, fun_ext, ◌≢◌, ◌↔◌, ◌⊎◌, inl, inr, Bool, true, false, not, ◌&&◌, ◌||◌, Option, none, some,
  List, [], ◌∷◌, ◌++◌, map, append_assoc, append-nil, arith, dec_lt, dec_le, ℕ_discrete, length,
  get_elem?, set, length-append, length-set, get_elem?-set_self, get_elem?-set_ne, get_or, take,
  drop, replicate, take-append-drop, length-take, length-drop, length-replicate, length-map, ltb,
  leb, ◌==◌, if◌then◌else◌, ltb→lt, lt→ltb, leb→le, ==_iff, tests, Bool-cases, Option-cases,
  if_either, All, All-map, All-append,
}
use tcpflow.Base.Int.{ℤ, pos, negsuc}
use tcpflow.Filename.Print.{decimal, pad}

-- The loop that takes groups of three digits off: the rest, and the groups with the highest first.
unfoldable pub take_groups : (fuel input : ℕ) → (tokens : List ℕ) → ℕ × List ℕ
take_groups zero input tokens = (input, tokens)
take_groups (suc fuel) input tokens =
    let more = take_groups fuel (input / 1000) (input % 1000 ∷ tokens) in
    if leb 1000 input then more else (input, tokens)

-- Each group after a comma, with three digits.
unfoldable pub write_groups : List ℕ → List ℕ
unfolding pad decimal
write_groups [] = []
write_groups (n ∷ tokens) = 44 ∷ pad 3 (decimal n) ++ write_groups tokens

unfoldable pub commas : ℕ → List ℕ
unfolding take_groups write_groups decimal
commas n = let (lead, tokens) = take_groups n n [] in decimal lead ++ write_groups tokens

-- The sign goes before the first group. `none` is the negation of the least int64_t, which the
-- language leaves undefined.
unfoldable pub comma_number_string : ℤ → Option (List ℕ)
unfolding commas
comma_number_string (pos n) = some (commas n)
comma_number_string (negsuc n) = if ltb (suc n) (2 ^ 63) then some (45 ∷ commas (suc n)) else none
