-- ===== src/AddressTree/Histogram.antt =====
-- src/iptree.h: the addresses of the nodes that count, with their counts.
use tcpflow.Base.{
  ℕ, suc, ◌+◌, ◌-◌, ◌/◌, ◌%◌, ◌≤◌, max, ◌≡◌, refl, List, [], ◌∷◌, ◌++◌, arith, take, replicate, ltb,
  ◌==◌, if◌then◌else◌, if_either,
}
use tcpflow.Base.Word.{u64, add64}
use tcpflow.AddressTree.Bits.{set_bit}
use tcpflow.AddressTree.{Node, null, node, sum}

-- `addr_elem`.
pub record AddrElem : Type 0 where
  pub addr : List ℕ
  pub depth : ℕ
  pub count : ℕ

abbrev pub max_histogram_depth : ℕ
max_histogram_depth = 128

-- The first `n` bytes of an address, and zeros up to `addrbytes`.
abbrev pub zero_padded : (addrbytes : ℕ) → List ℕ → (n : ℕ) → List ℕ
zero_padded addrbytes addr n = take n addr ++ replicate (addrbytes - n) 0

-- The entry of a node, if it counts anything.
abbrev pub own_elem : List ℕ → (depth count : ℕ) → List AddrElem
own_elem addr depth count =
    if count == 0 then [] else record { addr = addr; depth = depth; count = count } ∷ []

-- `get_histogram` from a node on.
unfoldable pub histogram_from : (addrbytes depth : ℕ) → List ℕ → Node → List AddrElem
unfolding set_bit
histogram_from addrbytes depth addr null = []
histogram_from addrbytes depth addr (node s l r) =
    let base = zero_padded addrbytes addr ((depth + 7) / 8) in
    let left = histogram_from addrbytes (depth + 1) base l in
    let right = histogram_from addrbytes (depth + 1) (set_bit base depth) r in
    let own = own_elem addr depth s in
    if ltb max_histogram_depth depth then own else own ++ left ++ right

unfoldable pub get_histogram : (addrbytes : ℕ) → Node → List AddrElem
unfolding histogram_from
get_histogram addrbytes root = histogram_from addrbytes 0 (replicate addrbytes 0) root

-- What the entries count together.
abbrev pub counts_total : List AddrElem → ℕ
counts_total [] = 0
counts_total (e ∷ l) = add64 e.count (counts_total l)

-- The longest path of a tree, in nodes.
abbrev pub height : Node → ℕ
height null = 0
height (node s l r) = suc (max (height l) (height r))

counts_total_small : (l : List AddrElem) → counts_total l ≡ counts_total l % u64
counts_total_small [] = refl
counts_total_small (e ∷ l) = omega arith

counts_total-append :
    (k l : List AddrElem) → counts_total (k ++ l) ≡ add64 (counts_total k) (counts_total l)
counts_total-append [] l = omega (arith, counts_total_small l)
counts_total-append (e ∷ k) l = omega (arith, counts_total-append k l)

sum-flat_height : (t : Node) → height t ≤ 0 → sum t ≡ 0
sum-flat_height null h = refl
sum-flat_height (node s l r) h = absurd (omega (arith, h))

counts_total_own :
    (s depth : ℕ) (addr : List ℕ) → let own = own_elem addr depth s in counts_total own ≡ s % u64
counts_total_own s depth addr = ground arith

counts_total-histogram_from :
    (addrbytes depth : ℕ) (addr : List ℕ) (t : Node)
    → depth + height t ≤ max_histogram_depth + 2
    → counts_total (histogram_from addrbytes depth addr t) ≡ sum t
unfolding histogram_from
counts_total-histogram_from addrbytes depth addr null h = refl
counts_total-histogram_from addrbytes depth addr (node s l r) h =
    let base = zero_padded addrbytes addr ((depth + 7) / 8) in
    let left = histogram_from addrbytes (depth + 1) base l in
    let right = histogram_from addrbytes (depth + 1) (set_bit base depth) r in
    let el = counts_total-histogram_from addrbytes (depth + 1) base l (omega arith) in
    let er =
      counts_total-histogram_from addrbytes (depth + 1) (set_bit base depth) r (omega arith) in
    let own = own_elem addr depth s in
    let counted : List AddrElem → Type 0 = λ k. counts_total k ≡ add64 (add64 s (sum l)) (sum r) in
    let o = counts_total_own s depth addr in
    if_either counted (ltb max_histogram_depth depth) _ _
      (λ deep.
        let zl = sum-flat_height l (ground arith) in
        let zr = sum-flat_height r (ground arith) in omega (arith, o, zl, zr))
      (λ there.
        let split = counts_total-append own left in
        omega (arith, o, counts_total-append (own ++ left) right, split, el, er))

-- Every byte that the tree counts is in its histogram, modulo 2^64, where no path of the tree has
-- more than 130 nodes.
pub counts_total-get_histogram :
    (addrbytes : ℕ) (root : Node)
    → height root ≤ max_histogram_depth + 2
    → counts_total (get_histogram addrbytes root) ≡ sum root
unfolding get_histogram
counts_total-get_histogram addrbytes root h =
    counts_total-histogram_from addrbytes 0 (replicate addrbytes 0) root (omega arith)
