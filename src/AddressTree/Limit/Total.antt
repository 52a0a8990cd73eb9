-- ===== src/AddressTree/Limit/Total.antt =====
-- src/iptree.h: what the tree counts, after `add` and its pruning.
use tcpflow.Base.{ℕ, ◌+◌, ◌%◌, ◌<◌, ◌≡◌, refl, Bool, false, some, List, arith, take}
use tcpflow.AddressTree.{
  null, node, add, cache_search, is_null, prune_if_needed, subtree, sum, Iptree, Node,
}
use tcpflow.AddressTree.Sum.{sum-add_modulo}
use tcpflow.AddressTree.Limit.{u64, weight, IsGrown}

sum-modulo : (t : Node) → sum t ≡ weight t % u64
sum-modulo null = refl
sum-modulo (node s l r) = omega (arith, sum-modulo l, sum-modulo r)

-- `add` of a value that is not 0, where the sum fits its word, raises the sum of the tree by just the
-- value, whatever is pruned before. The number of nodes was that of the tree, each tip counted
-- something, and an entry of the cache for the address, after pruning, is that of a node of the tree.
pub sum-add :
    (addrbytes : ℕ) (addr : List ℕ) (val : ℕ) (t : Iptree)
    → IsGrown t
    → 0 < val
    → weight t.root + val < u64
    → ((path : List Bool)
        → cache_search (take addrbytes addr) (prune_if_needed t).cache ≡ some path
        → is_null (subtree path (prune_if_needed t).root) ≡ false)
    → sum (add addrbytes addr val t).root ≡ sum t.root + val
sum-add addrbytes addr val t v p w alive =
    let e = sum-add_modulo addrbytes addr val t v.there alive in
    omega (arith, e, w, sum-modulo t.root)
