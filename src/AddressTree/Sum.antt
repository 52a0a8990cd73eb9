-- ===== src/AddressTree/Sum.antt =====
-- src/iptree.h: the sum over the nodes of the tree, under `prune_if_needed` and `add`.
use tcpflow.Base.{
  ℕ, zero, suc, ◌+◌, ◌*◌, ◌%◌, ◌≡◌, refl, ap, ◌∙◌, inl, inr, Bool, true, false, ◌&&◌, Option, none,
  some, List, [], ◌∷◌, arith, length, take, ltb, ◌==◌, Option-cases, if_either,
}
use tcpflow.Base.Word.{u64, add64}
use tcpflow.AddressTree.{
  count_at, bits_from, cache_search, cache_replace, add, is_better, subtree, tsum_of, is_null, Node,
  null, node, sum, made, is_leaf, is_flat, add_at, prune, prune_at, best_to_prune, prune_best_node,
  prune_loop, prune_if_needed, Iptree,
}

made_there : (t : Node) → is_null (made t) ≡ false
made_there null = refl
made_there (node s l r) = refl

sum-made : (t : Node) → sum (made t) ≡ sum t
sum-made null = refl
sum-made (node s l r) = refl

add64_left : (s v a b : ℕ) → add64 (add64 (add64 s v) a) b ≡ add64 (add64 (add64 s a) b) v
add64_left s v a b = omega arith

add64_middle : (s v a b : ℕ) → add64 (add64 s (add64 a v)) b ≡ add64 (add64 (add64 s a) b) v
add64_middle s v a b = omega arith

add64_right : (s v a b : ℕ) → add64 (add64 s a) (add64 b v) ≡ add64 (add64 (add64 s a) b) v
add64_right s v a b = omega arith

-- Adding to a tree, at any path, raises the sum by the value, modulo 2^64.
pub sum-add_at :
    (bits : List Bool) (val : ℕ) (t : Node)
    → is_null t ≡ false
    → sum (add_at bits val t).0 ≡ add64 (sum t) val
unfolding add_at
sum-add_at bits val null h = absurd cc
sum-add_at [] val (node s l r) h = add64_left s val (sum l) (sum r)
sum-add_at (b ∷ bits) val (node s l r) h =
    let goal : Node × ℕ × List Bool → Type 0 =
      λ q. sum q.0 ≡ add64 (add64 (add64 s (sum l)) (sum r)) val in
    if_either goal (is_leaf (node s l r)) _ _ (λ e. add64_left s val (sum l) (sum r))
      (λ e.
        if_either goal b _ _
          (λ right.
            ap (add64 (add64 s (sum l)))
              (sum-add_at bits val (made r) (made_there r) ∙ ap (λ x. add64 x val) (sum-made r))
            ∙ add64_right s val (sum l) (sum r))
          (λ left.
            ap (λ x. add64 (add64 s x) (sum r))
              (sum-add_at bits val (made l) (made_there l) ∙ ap (λ x. add64 x val) (sum-made l))
            ∙ add64_middle s val (sum l) (sum r)))

and_both : (a b : Bool) → (a && b) ≡ true → (a ≡ true) × (b ≡ true)
and_both a b e = ground arith

-- The path of a node whose children are leaves or missing.
abbrev pub Prunable : List Bool → Node → Type 0
Prunable path null = (false ≡ true)
Prunable [] (node s l r) = (is_flat l ≡ true) × (is_flat r ≡ true)
Prunable (true ∷ path) (node s l r) = Prunable path r
Prunable (false ∷ path) (node s l r) = Prunable path l

pub best_to_prune-Prunable :
    (t : Node) (depth : ℕ) → is_flat t ≡ false → Prunable (best_to_prune t depth).0 t
unfolding best_to_prune
best_to_prune-Prunable null depth h = absurd cc
best_to_prune-Prunable (node s l r) depth h =
    let bl = best_to_prune l (depth + 1) in
    let br = best_to_prune r (depth + 1) in
    let sum0 = sum (subtree bl.0 l) in
    let sum1 = sum (subtree br.0 r) in
    let there : List Bool × ℕ → Type 0 = λ q. Prunable q.0 (node s l r) in
    if_either there (is_flat l && is_flat r) _ _ (λ both. and_both (is_flat l) (is_flat r) both)
      (λ one.
        if_either there (is_flat l) _ _
          (λ left. best_to_prune-Prunable r (depth + 1) (ground arith))
          (λ deep_l.
            if_either there (is_flat r) _ _ (λ right. best_to_prune-Prunable l (depth + 1) deep_l)
              (λ deep_r.
                if_either there (is_better sum0 sum1 bl.1 br.1) (false ∷ bl.0, bl.1)
                  (true ∷ br.0, br.1) (λ less. best_to_prune-Prunable l (depth + 1) deep_l)
                  (λ more. best_to_prune-Prunable r (depth + 1) deep_r))))

sum-flat : (t : Node) → is_flat t ≡ true → sum t ≡ tsum_of t % u64
sum-flat null h = refl
sum-flat (node s null null) h = omega arith
sum-flat (node s (node a b c) r) h = absurd (ground arith)
sum-flat (node s null (node a b c)) h = absurd (ground arith)

-- Pruning a node keeps the sum of the tree.
sum-prune_at : (path : List Bool) (t : Node) → Prunable path t → sum (prune_at path t).0 ≡ sum t
unfolding prune_at prune
sum-prune_at path null h = absurd cc
sum-prune_at [] (node s l r) h = omega (arith, sum-flat l h.0, sum-flat r h.1)
sum-prune_at (true ∷ path) (node s l r) h = ap (add64 (add64 s (sum l))) (sum-prune_at path r h)
sum-prune_at (false ∷ path) (node s l r) h =
    ap (λ x. add64 (add64 s x) (sum r)) (sum-prune_at path l h)

pub prune_at_there :
    (path : List Bool) (t : Node) → is_null t ≡ false → is_null (prune_at path t).0 ≡ false
unfolding prune_at prune
prune_at_there path null h = h
prune_at_there [] (node s l r) h = refl
prune_at_there (true ∷ path) (node s l r) h = refl
prune_at_there (false ∷ path) (node s l r) h = refl

-- A tree with a root and the sum of `t`.
abbrev SameSum : Node → Node → Type 0
SameSum t t' = (is_null t' ≡ false) × (sum t' ≡ sum t)

prune_best_node-SameSum :
    (t : Iptree) → is_null t.root ≡ false → SameSum t.root (prune_best_node t).0.root
unfolding prune_best_node
prune_best_node-SameSum t h =
    let same : Iptree × ℕ → Type 0 = λ q. SameSum t.root q.0.root in
    if_either same (is_leaf t.root) _ _ (λ e. (h, refl))
      (λ e.
        let path = (best_to_prune t.root 0).0 in
        let p = best_to_prune-Prunable t.root 0 (ground arith) in
        (prune_at_there path t.root h, sum-prune_at path t.root p))

prune_loop-SameSum :
    (fuel : ℕ) (t : Iptree) → is_null t.root ≡ false → SameSum t.root (prune_loop fuel t).root
unfolding prune_loop
prune_loop-SameSum zero t h = (h, refl)
prune_loop-SameSum (suc fuel) t h =
    let same : Iptree → Type 0 = λ q. SameSum t.root q.root in
    let (there, e) = prune_best_node-SameSum t h in
    let (last, e') = prune_loop-SameSum fuel (prune_best_node t).0 there in
    if_either same (ltb t.maxnodes t.nodes) _ _
      (λ full.
        if_either same ((prune_best_node t).1 == 0) _ _ (λ no. (there, e)) (λ more. (last, e' ∙ e)))
      (λ room. (h, refl))

root-cache_replace :
    (addr : List ℕ) (path : List Bool) (t : Iptree) → (cache_replace addr path t).root ≡ t.root
unfolding cache_replace
root-cache_replace addr path t = ground arith

sum-count_at :
    (path : List Bool) (val : ℕ) (t : Node)
    → is_null (subtree path t) ≡ false
    → sum (count_at path val t) ≡ add64 (sum t) val
sum-count_at path val null h = absurd cc
sum-count_at [] val (node s l r) h = add64_left s val (sum l) (sum r)
sum-count_at (true ∷ path) val (node s l r) h =
    ap (add64 (add64 s (sum l))) (sum-count_at path val r h) ∙ add64_right s val (sum l) (sum r)
sum-count_at (false ∷ path) val (node s l r) h =
    ap (λ x. add64 (add64 s x) (sum r)) (sum-count_at path val l h)
    ∙ add64_middle s val (sum l) (sum r)

module _ (addrbytes : ℕ) (addr : List ℕ) (val : ℕ) (t : Iptree) where
  abbrev pub pruned_tree : Iptree
  pruned_tree = prune_if_needed t

  abbrev found : Option (List Bool)
  found = cache_search (take addrbytes addr) pruned_tree.cache

  pub root-add_hit :
      (path : List Bool)
      → found ≡ some path
      → (add addrbytes addr val t).root ≡ count_at path val pruned_tree.root
  unfolding add
  root-add_hit path e = ground (arith, e)

  pub root-add_miss :
      found ≡ none
      → (add addrbytes addr val t).root
        ≡ (add_at
            (bits_from (take addrbytes addr) 0 (8 * length (take addrbytes addr)))
            val
            pruned_tree.root).0
  unfolding add cache_replace
  root-add_miss e = ground (arith, e)

pub sum-add_modulo :
    (addrbytes : ℕ) (addr : List ℕ) (val : ℕ) (t : Iptree)
    → is_null t.root ≡ false
    → ((path : List Bool)
        → cache_search (take addrbytes addr) (prune_if_needed t).cache ≡ some path
        → is_null (subtree path (prune_if_needed t).root) ≡ false)
    → sum (add addrbytes addr val t).root ≡ add64 (sum t.root) val
unfolding prune_if_needed
sum-add_modulo addrbytes whole val t h alive =
    let (there, e) = prune_loop-SameSum t.nodes t h in
    let addr = take addrbytes whole in
    elim (Option-cases (cache_search addr (prune_if_needed t).cache)) [
      | inl miss ↦
          ap sum (root-add_miss addrbytes whole val t miss)
          ∙ sum-add_at (bits_from addr 0 (8 * length addr)) val (prune_if_needed t).root there
          ∙ ap (λ x. add64 x val) e
      | inr (path, hit) ↦
          ap sum (root-add_hit addrbytes whole val t path hit)
          ∙ sum-count_at path val (prune_if_needed t).root (alive path hit)
          ∙ ap (λ x. add64 x val) e
    ]
