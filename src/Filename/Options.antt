-- ===== src/Filename/Options.antt =====
-- src/tcpflow.cpp: the options -F and -T, as far as they change the template of the file names.
use tcpflow.Base.{
  ℕ, zero, suc, ◌-◌, ◌<◌, ◌≡◌, refl, Bool, true, false, ◌||◌, List, [], ◌∷◌, ◌++◌, arith, length,
  take, ltb, ◌==◌, if◌then◌else◌,
}
use tcpflow.Flow.{Flow}
use tcpflow.Flow.Addr.{same_bytes}
use tcpflow.Filename.{Naming, filename, expand, substitute, default_template}

-- The loop of `replace`: `skip` bytes of a match are still to be passed over.
unfoldable pub replace_loop : (from to : List ℕ) → ℕ → List ℕ → List ℕ
replace_loop from to skip [] = []
replace_loop from to (suc skip) (c ∷ s) = replace_loop from to skip s
replace_loop from to zero (c ∷ s) =
    let matched = replace_loop from to (length from - 1) s in
    let other = replace_loop from to 0 s in
    if same_bytes (take (length from) (c ∷ s)) from then to ++ matched else c ∷ other

-- `replace`; an empty `from` changes nothing.
unfoldable pub replace : (str from to : List ℕ) → List ℕ
unfolding replace_loop
replace str from to = if length from == 0 then str else replace_loop from to 0 str

-- `str.find(from) != npos`, where `from` is not empty.
unfoldable pub contains : (from str : List ℕ) → Bool
contains from [] = false
contains from (c ∷ s) = same_bytes (take (length from) (c ∷ s)) from || contains from s

-- The letters of -F that change the template.
unfoldable pub format_template : ℕ → List ℕ → List ℕ
unfolding replace
format_template letter t =
    if letter == b'c'
    then replace t (b'%' ∷ b'c' ∷ []) (b'%' ∷ b'C' ∷ [])
    else if letter == b'k'
    then b'%' ∷ b'K' ∷ b'/' ∷ t
    else if letter == b'm'
    then b'%' ∷ b'M' ∷ b'0' ∷ b'0' ∷ b'0' ∷ b'-' ∷ b'%' ∷ b'M' ∷ b'9' ∷ b'9' ∷ b'9' ∷ b'/' ∷ b'%'
      ∷ b'M' ∷ b'%' ∷ b'K' ∷ b'/' ∷ t
    else if letter == b'g'
    then b'%' ∷ b'G' ∷ b'0' ∷ b'0' ∷ b'0' ∷ b'0' ∷ b'0' ∷ b'0' ∷ b'-' ∷ b'%' ∷ b'G' ∷ b'9' ∷ b'9'
      ∷ b'9' ∷ b'9' ∷ b'9' ∷ b'9' ∷ b'/' ∷ b'%' ∷ b'G' ∷ b'%' ∷ b'M' ∷ b'0' ∷ b'0' ∷ b'0' ∷ b'-'
      ∷ b'%' ∷ b'G' ∷ b'%' ∷ b'M' ∷ b'9' ∷ b'9' ∷ b'9' ∷ b'/' ∷ b'%' ∷ b'G' ∷ b'%' ∷ b'M' ∷ b'%'
      ∷ b'K' ∷ b'/' ∷ t
    else if letter == b't'
    then b'%' ∷ b't' ∷ b'T' ∷ t
    else if letter == b'T'
    then b'%' ∷ b'T' ∷ t
    else t

-- The option -T: the counter is appended where the argument has none.
unfoldable pub argument_template : List ℕ → List ℕ
unfolding contains
argument_template arg =
    if contains (b'%' ∷ b'c' ∷ []) arg then arg else arg ++ b'%' ∷ b'C' ∷ b'%' ∷ b'c' ∷ []

ltb-suc : (i : ℕ) → ltb 0 (suc i) ≡ true
ltb-suc i = ground arith

-- With -Fc, which the usage says to append the connection counter to all names, the default template
-- loses the counter: a flow has one and the same name for all its connection counts but the first.
pub format_template-filename :
    (env : Naming) (f : Flow) (i j : ℕ)
    → env.template ≡ format_template b'c' default_template
    → 0 < i
    → 0 < j
    → filename env f i false ≡ filename env f j false
unfolding filename expand substitute format_template same_bytes
format_template-filename env f (suc i) (suc j) e h k = rw (e, ltb-suc i, ltb-suc j) refl
format_template-filename env f zero j e h k = absurd (omega (arith, h))
format_template-filename env f (suc i) zero e h k = absurd (omega (arith, k))
