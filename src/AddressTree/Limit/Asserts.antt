-- ===== src/AddressTree/Limit/Asserts.antt =====
-- src/iptree.h: the assertions that pruning runs into.
use tcpflow.Base.{ℕ, zero, suc, Bool, true, false, ◌&&◌, ◌||◌, ltb, ◌==◌, if◌then◌else◌}
use tcpflow.AddressTree.{
  null, node, Node, is_leaf, is_flat, prune, best_to_prune, prune_best_node, subtree, Iptree,
}

-- Whether the assertions of `node::prune` hold: each child is a leaf, one at least is removed, and
-- the node is a leaf then.
unfoldable pub prune_asserts : Node → Bool
unfolding prune
prune_asserts null = false
prune_asserts (node s l r) =
    let (t, removed) = prune (node s l r) in
    is_flat l && (is_flat r && (ltb 0 removed && is_leaf t))

-- Whether the assertions of a run of `prune_if_needed` hold: `best_to_prune` is not called on a leaf,
-- and those of each `prune`.
unfoldable pub loop_asserts : (fuel : ℕ) → Iptree → Bool
unfolding prune_asserts prune_best_node
loop_asserts zero t = true
loop_asserts (suc fuel) t =
    let (t', removed) = prune_best_node t in
    let rest = loop_asserts fuel t' in
    let here = prune_asserts (subtree (best_to_prune t.root 0).0 t.root) in
    if ltb t.maxnodes t.nodes
    then (if is_leaf t.root then true else here && (removed == 0 || rest))
    else true
