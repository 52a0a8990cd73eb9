-- ===== src/OpenFlows/Laws.antt =====
-- src/intrusive_list.h: the operations of the list on its members in order.
use tcpflow.Base.{
  ℕ, ◌+◌, ◌<◌, ◌≡◌, refl, sym, ap, ◌∙◌, fun_ext, ◌≢◌, inl, inr, false, Option, none, some, List, [],
  ◌∷◌, ◌++◌, arith, ℕ_discrete, length, length-append, ◌==◌, if◌then◌else◌, Option-cases,
}
use tcpflow.OpenFlows.{
  OpenFlows, nodes, erase_cell, update, empty, is_linked, reset, push_back, erase, move_to_end,
}

-- How often a node stands in the list.
abbrev pub count : ℕ → List ℕ → ℕ
count n [] = 0
count n (m ∷ l) = (if m == n then 1 else 0) + count n l

abbrev pub remove : ℕ → List ℕ → List ℕ
remove n [] = []
remove n (m ∷ l) = let rest = remove n l in if m == n then rest else m ∷ rest

-- Each cell is the one that its node's iterator points to.
abbrev pub Cells : (ℕ → Option ℕ) → List (ℕ × ℕ) → Type 0
Cells it [] = Unit {0}
Cells it ((c, n) ∷ l) = (it n ≡ some c) × Cells it l

abbrev pub linked_once : Option ℕ → ℕ
linked_once none = 0
linked_once (some c) = 1

pub record IsValid (l : OpenFlows) : Type 0 where
  pub cells : Cells l.it l.li
  pub apart : (m n c : ℕ) → l.it m ≡ some c → l.it n ≡ some c → m ≡ n
  pub fresh : (n c : ℕ) → l.it n ≡ some c → c < l.next_cell
  pub once : (n : ℕ) → count n (nodes l.li) ≡ linked_once (l.it n)
  pub counted : l.len ≡ length (nodes l.li)

nodes-append : (a b : List (ℕ × ℕ)) → nodes (a ++ b) ≡ nodes a ++ nodes b
nodes-append [] b = refl
nodes-append ((c, n) ∷ a) b = ap (◌∷◌ n) (nodes-append a b)

count-append : (n : ℕ) (a b : List ℕ) → count n (a ++ b) ≡ count n a + count n b
count-append n [] b = omega arith
count-append n (m ∷ a) b = omega (arith, count-append n a b)

pub length-remove : (n : ℕ) (l : List ℕ) → length (remove n l) + count n l ≡ length l
length-remove n [] = omega arith
length-remove n (m ∷ l) = ground (arith, length-remove n l)

count-remove : (n m : ℕ) (l : List ℕ) → count m (remove n l) ≡ (if m == n then 0 else count m l)
count-remove n m [] = ground arith
count-remove n m (k ∷ l) = ground (arith, count-remove n m l)

-- To erase the cell of a node is to remove the node.
nodes-erase_cell :
    (it : ℕ → Option ℕ) (n c : ℕ) (l : List (ℕ × ℕ))
    → ((m k d : ℕ) → it m ≡ some d → it k ≡ some d → m ≡ k)
    → it n ≡ some c
    → Cells it l
    → nodes (erase_cell c l) ≡ remove n (nodes l)
unfolding erase_cell
nodes-erase_cell it n c [] inj e v = refl
nodes-erase_cell it n c ((d, m) ∷ l) inj e v = elim (ℕ_discrete m n) [
  | yes q ↦
      let p : some d ≡ some c = sym v.0 ∙ ap it q ∙ e in
      let s : d ≡ c = cc in ground (arith, nodes-erase_cell it n c l inj e v.1)
  | no q ↦
      let s : d ≢ c = λ h. q (inj m n c (v.0 ∙ ap some h) e) in
      ground (arith, nodes-erase_cell it n c l inj e v.1)
]

Cells-erase_cell :
    (it : ℕ → Option ℕ) (n c : ℕ) (l : List (ℕ × ℕ))
    → it n ≡ some c
    → Cells it l
    → Cells (update it n none) (erase_cell c l)
unfolding erase_cell
Cells-erase_cell it n c [] e v = tt
Cells-erase_cell it n c ((d, m) ∷ l) e v =
    ground (arith, ap it {x = m} {y = n}, Cells-erase_cell it n c l e v.1)

pub empty-IsValid : IsValid empty
unfolding empty
empty-IsValid = record {
  cells = tt;
  apart = λ m n c e. cc;
  fresh = λ n c e. cc;
  once = λ n. refl;
  counted = refl;
}

-- Erasing a flow, linked or not, keeps a valid list valid.
pub erase-IsValid : (n : ℕ) (l : OpenFlows) → IsValid l → IsValid (erase n l)
unfolding erase reset
erase-IsValid n l v = elim (Option-cases (l.it n)) [
  | inl e ↦ rw (e, erase) v
  | inr (c, e) ↦
      let ns = nodes-erase_cell l.it n c l.li v.apart e v.cells in
      rw (e, erase)
        (record {
          cells = Cells-erase_cell l.it n c l.li e v.cells;
          apart = λ a b d p q. ground (arith, v.apart a b d);
          fresh = λ a d p. ground (arith, v.fresh a d);
          once = λ a. rw ns (ground (arith, count-remove n a (nodes l.li), v.once a));
          counted = rw ns (ground (arith, length-remove n (nodes l.li), v.once n, v.counted));
        })
]

remove_absent : (n : ℕ) (l : List ℕ) → count n l ≡ 0 → remove n l ≡ l
remove_absent n [] h = refl
remove_absent n (m ∷ l) h = ground (arith, remove_absent n l)

Cells-append :
    (it : ℕ → Option ℕ) (a b : List (ℕ × ℕ)) → Cells it a → Cells it b → Cells it (a ++ b)
Cells-append it [] b v w = w
Cells-append it ((c, n) ∷ a) b v w = (v.0, Cells-append it a b v.1 w)

Cells-update :
    (it : ℕ → Option ℕ) (n : ℕ) (o : Option ℕ) (l : List (ℕ × ℕ))
    → it n ≡ none
    → Cells it l
    → Cells (update it n o) l
Cells-update it n o [] e v = tt
Cells-update it n o ((c, m) ∷ l) e v =
    ground (arith, ap it {x = m} {y = n}, Cells-update it n o l e v.1)

-- A linked node's cell stays linked when the cell is cut out.
Cells-cut : (it : ℕ → Option ℕ) (c : ℕ) (l : List (ℕ × ℕ)) → Cells it l → Cells it (erase_cell c l)
unfolding erase_cell
Cells-cut it c [] v = tt
Cells-cut it c ((d, m) ∷ l) v = ground (arith, Cells-cut it c l v.1)

-- Erasing a flow removes it from a valid list, and leaves the order of the others.
pub nodes-erase : (n : ℕ) (l : OpenFlows) → IsValid l → nodes (erase n l).li ≡ remove n (nodes l.li)
unfolding erase reset
nodes-erase n l v = elim (Option-cases (l.it n)) [
  | inl e ↦ rw (e, erase) (sym (remove_absent n (nodes l.li) (v.once n ∙ ap linked_once e)))
  | inr (c, e) ↦ rw (e, erase) (nodes-erase_cell l.it n c l.li v.apart e v.cells)
]

-- A flow that is opened joins at the end.
pub nodes-push_back : (n : ℕ) (l : OpenFlows) → nodes (push_back n l).li ≡ nodes l.li ++ n ∷ []
unfolding push_back
nodes-push_back n l = nodes-append l.li ((l.next_cell, n) ∷ [])

-- In a valid list, moving a linked flow to the end keeps the order of the others; an unlinked
-- one moves nothing.
pub nodes-move_to_end :
    (n : ℕ) (l : OpenFlows)
    → IsValid l
    → nodes (move_to_end n l).li
      ≡ (if is_linked n l then remove n (nodes l.li) ++ n ∷ [] else nodes l.li)
unfolding move_to_end is_linked
nodes-move_to_end n l v = elim (Option-cases (l.it n)) [
  | inl e ↦ rw (e, move_to_end, is_linked)
  | inr (c, e) ↦ rw (
    e,
    move_to_end,
    is_linked,
    nodes-append (erase_cell c l.li) ((c, n) ∷ []),
    nodes-erase_cell l.it n c l.li v.apart e v.cells,
  )
]

pub unlinked-it : (n : ℕ) (l : OpenFlows) → is_linked n l ≡ false → l.it n ≡ none
unfolding is_linked
unlinked-it n l h = ground arith

-- Resetting the iterator of a flow that is not linked changes nothing.
pub reset_unlinked : (n : ℕ) (l : OpenFlows) → l.it n ≡ none → reset n l ≡ l
unfolding reset
reset_unlinked n l h =
    let same : update l.it n none ≡ l.it =
      fun_ext (λ m. ground (arith, h, ap l.it {x = m} {y = n})) in
    ap (λ (it : ℕ → Option ℕ). record l { it = it }) same

-- Adding a flow that is not linked at the end keeps a valid list valid.
pub push_back-IsValid :
    (n : ℕ) (l : OpenFlows) → IsValid l → l.it n ≡ none → IsValid (push_back n l)
unfolding push_back
push_back-IsValid n l v h = record {
  cells =
      Cells-append (update l.it n (some l.next_cell)) l.li ((l.next_cell, n) ∷ [])
        (Cells-update l.it n (some l.next_cell) l.li h v.cells) (ground arith);
  apart = λ a b c p q. ground (arith, v.apart a b c, v.fresh a l.next_cell, v.fresh b l.next_cell);
  fresh = λ a c p. ground (arith, v.fresh a c);
  once = λ a.
      rw (nodes-append l.li ((l.next_cell, n) ∷ []), count-append a (nodes l.li) (n ∷ []), v.once a)
        (ground (arith, ap l.it {x = a} {y = n}));
  counted =
      rw (nodes-append l.li ((l.next_cell, n) ∷ []))
        (omega (arith, length-append (nodes l.li) (n ∷ []), v.counted));
}

-- Moving a flow to the end, linked or not, keeps a valid list valid.
pub move_to_end-IsValid : (n : ℕ) (l : OpenFlows) → IsValid l → IsValid (move_to_end n l)
unfolding move_to_end
move_to_end-IsValid n l v = elim (Option-cases (l.it n)) [
  | inl e ↦ rw (e, move_to_end) v
  | inr (c, e) ↦
      let ns =
        nodes-append (erase_cell c l.li) ((c, n) ∷ [])
        ∙ ap (λ x. x ++ n ∷ []) (nodes-erase_cell l.it n c l.li v.apart e v.cells) in
      rw (e, move_to_end)
        (record {
          cells =
              Cells-append l.it (erase_cell c l.li) ((c, n) ∷ []) (Cells-cut l.it c l.li v.cells)
                (e, tt);
          apart = v.apart;
          fresh = v.fresh;
          once = λ a.
              rw
                (
                  ns,
                  count-append a (remove n (nodes l.li)) (n ∷ []),
                  count-remove n a (nodes l.li),
                  v.once a,
                )
                (ground (arith, ap l.it {x = a} {y = n}));
          counted = rw ns (
              omega (
                arith,
                length-append (remove n (nodes l.li)) (n ∷ []),
                length-remove n (nodes l.li),
                v.once n,
                ap linked_once e,
                v.counted,
              ));
        })
]
