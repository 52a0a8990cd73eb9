-- ===== src/OpenFlows.antt =====
-- src/intrusive_list.h: the list of the flows with open files, in access order. A node is the
-- address of a flow and keeps an iterator into the list; a cell is a node of the std::list.
pub mod Laws
use tcpflow.Base.{
  ℕ, zero, suc, ◌+◌, ◌-◌, ◌*◌, ◌/◌, ◌%◌, ◌^◌, ◌≤◌, ◌<◌, min, max, ◌≡◌, refl, sym, ap, ap₂, subst,
  ◌∙◌, fun_ext, ◌≢◌, ◌↔◌, ◌⊎◌, inl, inr, Bool, true, false, not, ◌&&◌, ◌||◌, Option, none, some,
  List, [], ◌∷◌, ◌++◌, map, append_assoc, append-nil, arith, dec_lt, dec_le, ℕ_discrete, length,
  get_elem?, set, length-append, length-set, get_elem?-set_self, get_elem?-set_ne, get_or, take,
  drop, replicate, take-append-drop, length-take, length-drop, length-replicate, length-map, ltb,
  leb, ◌==◌, if◌then◌else◌, ltb→lt, lt→ltb, leb→le, ==_iff, tests, Bool-cases, Option-cases,
}

pub record OpenFlows : Type 0 where
  pub li : List (ℕ × ℕ)
  pub len : ℕ
  pub it : ℕ → Option ℕ
  pub next_cell : ℕ

-- The members, from the front.
abbrev pub nodes : List (ℕ × ℕ) → List ℕ
nodes [] = []
nodes ((c, n) ∷ l) = n ∷ nodes l

-- `std::list::erase` of the cell that an iterator points to.
unfoldable pub erase_cell : ℕ → List (ℕ × ℕ) → List (ℕ × ℕ)
erase_cell c [] = []
erase_cell c ((d, n) ∷ l) = let rest = erase_cell c l in if d == c then rest else (d, n) ∷ rest

abbrev pub update : (ℕ → Option ℕ) → ℕ → Option ℕ → ℕ → Option ℕ
update f n v m = if m == n then v else f m

unfoldable pub empty : OpenFlows
empty = record { li = []; len = 0; it = λ _. none; next_cell = 0 }

-- `is_linked`: the iterator is not `end()`.
unfoldable pub is_linked : ℕ → OpenFlows → Bool
is_linked n l = elim (l.it n) [ none ↦ false | some c ↦ true ]

unfoldable pub reset : ℕ → OpenFlows → OpenFlows
reset n l = record l { it = update l.it n none }

unfoldable pub push_back : ℕ → OpenFlows → OpenFlows
push_back n l = record {
  li = l.li ++ (l.next_cell, n) ∷ [];
  len = l.len + 1;
  it = update l.it n (some l.next_cell);
  next_cell = l.next_cell + 1;
}

unfoldable pub erase : ℕ → OpenFlows → OpenFlows
unfolding erase_cell reset
erase n l = elim (l.it n) [
  | none ↦ l
  | some c ↦ reset n (record l { li = erase_cell c l.li; len = l.len - 1 })
]

-- `splice` of the cell to the end; the iterator stays on it.
unfoldable pub move_to_end : ℕ → OpenFlows → OpenFlows
unfolding erase_cell
move_to_end n l = elim (l.it n) [
  | none ↦ l
  | some c ↦ record l { li = erase_cell c l.li ++ (c, n) ∷ [] }
]

unfoldable pub size : OpenFlows → ℕ
size l = l.len

-- `*begin()`; the code reads it without a test of `empty()`.
unfoldable pub front : OpenFlows → Option ℕ
front l = elim l.li [ [] ↦ none | (c, n) ∷ rest ↦ some n ]
