-- ===== src/AddressTree/Limit.antt =====
-- src/iptree.h: the number of nodes that pruning leaves.
pub mod Adding
pub mod Total
pub mod Asserts
use tcpflow.Base.{
  ℕ, zero, suc, ◌+◌, ◌-◌, ◌*◌, ◌/◌, ◌%◌, ◌^◌, ◌≤◌, ◌<◌, min, max, ◌≡◌, refl, sym, ap, ap₂, subst,
  ◌∙◌, fun_ext, ◌≢◌, ◌↔◌, ◌⊎◌, inl, inr, Bool, true, false, not, ◌&&◌, ◌||◌, Option, none, some,
  List, [], ◌∷◌, ◌++◌, map, append_assoc, append-nil, arith, dec_lt, dec_le, ℕ_discrete, length,
  get_elem?, set, length-append, length-set, get_elem?-set_self, get_elem?-set_ne, get_or, take,
  drop, replicate, take-append-drop, length-take, length-drop, length-replicate, length-map, ltb,
  leb, ◌==◌, if◌then◌else◌, ltb→lt, lt→ltb, leb→le, ==_iff, tests, Bool-cases, Option-cases,
  if_either, All, All-map, All-append,
}
use tcpflow.Base.Word.{u64, add64}
use tcpflow.AddressTree.{
  is_better, subtree, tsum_of, is_null, Node, null, node, sum, is_leaf, is_flat, prune, prune_at,
  best_to_prune, prune_best_node, prune_loop, prune_if_needed, Iptree,
}
use tcpflow.AddressTree.Sum.{Prunable, best_to_prune-Prunable, prune_at_there}

-- The nodes of a tree, and those below its root.
abbrev pub node_count : Node → ℕ
node_count null = 0
node_count (node s l r) = suc (node_count l + node_count r)

abbrev pub below : Node → ℕ
below null = 0
below (node s l r) = node_count l + node_count r

-- What the nodes count together, without wrapping around.
abbrev pub weight : Node → ℕ
weight null = 0
weight (node s l r) = s + (weight l + weight r)

-- Every node without a child counts something.
abbrev pub TipsCount : Node → Type 0
TipsCount null = Unit {0}
TipsCount (node s l r) = ((is_null l && is_null r) ≡ true → 0 < s) × TipsCount l × TipsCount r

abbrev pub ChildrenCount : Node → Type 0
ChildrenCount null = Unit {0}
ChildrenCount (node s l r) = TipsCount l × TipsCount r

pub TipsCount-children : (t : Node) → TipsCount t → ChildrenCount t
TipsCount-children null v = tt
TipsCount-children (node s l r) v = (v.1, v.2)

node_count_null : (t : Node) → node_count t ≡ 0 → is_null t ≡ true
node_count_null null h = refl
node_count_null (node s l r) h = absurd (omega (arith, h))

-- A node that is no leaf, and whose tips count, has a child.
below_deep : (t : Node) → is_flat t ≡ false → TipsCount t → 0 < below t
below_deep null h v = absurd cc
below_deep (node s null null) h v = absurd (ground (arith, v.0 refl))
below_deep (node s (node a b c) r) h v = omega arith
below_deep (node s null (node a b c)) h v = omega arith

below_flat : (t : Node) → is_flat t ≡ true → below t ≡ 0
below_flat null h = refl
below_flat (node s null null) h = refl
below_flat (node s (node a b c) r) h = absurd (ground arith)
below_flat (node s null (node a b c)) h = absurd (ground arith)

-- The node at a path has a child.
abbrev pub HasChild : List Bool → Node → Type 0
HasChild path null = (false ≡ true)
HasChild [] (node s l r) = 0 < below (node s l r)
HasChild (true ∷ path) (node s l r) = HasChild path r
HasChild (false ∷ path) (node s l r) = HasChild path l

pub best_to_prune-HasChild :
    (t : Node) (depth : ℕ) → 0 < below t → ChildrenCount t → HasChild (best_to_prune t depth).0 t
unfolding best_to_prune
best_to_prune-HasChild null depth h v = absurd (omega (arith, h))
best_to_prune-HasChild (node s l r) depth h v =
    let bl = best_to_prune l (depth + 1) in
    let br = best_to_prune r (depth + 1) in
    let there : List Bool × ℕ → Type 0 = λ q. HasChild q.0 (node s l r) in
    let in_left = λ (deep : is_flat l ≡ false).
      best_to_prune-HasChild l (depth + 1) (below_deep l deep v.0) (TipsCount-children l v.0) in
    let in_right = λ (deep : is_flat r ≡ false).
      best_to_prune-HasChild r (depth + 1) (below_deep r deep v.1) (TipsCount-children r v.1) in
    if_either there (is_flat l && is_flat r) _ _ (λ both. h)
      (λ one.
        if_either there (is_flat l) _ _ (λ left. in_right (ground arith))
          (λ deep_l.
            if_either there (is_flat r) _ _ (λ right. in_left deep_l)
              (λ deep_r.
                if_either there (is_better (sum (subtree bl.0 l)) (sum (subtree br.0 r)) bl.1 br.1)
                  (false ∷ bl.0, bl.1) (true ∷ br.0, br.1) (λ less. in_left deep_l)
                  (λ more. in_right deep_r))))

-- Pruning takes as many nodes off as it says, one at least, and what is left counts as much.
pub record IsPruned (t t' : Node) (removed : ℕ) : Type 0 where
  pub some_removed : 0 < removed
  fewer : node_count t' + removed ≡ node_count t
  pub same_weight : weight t' ≡ weight t
  tips : TipsCount t → TipsCount t'

tsum_flat : (t : Node) → is_flat t ≡ true → weight t ≡ tsum_of t
tsum_flat null h = refl
tsum_flat (node s null null) h = omega arith
tsum_flat (node s (node a b c) r) h = absurd (ground arith)
tsum_flat (node s null (node a b c)) h = absurd (ground arith)

pub weight_flat : (t : Node) → is_flat t ≡ true → 0 < node_count t → 0 < weight t
weight_flat null h n = absurd (omega (arith, n))
weight_flat (node s l r) h n = ground arith

HasChild-there : (path : List Bool) (t : Node) → HasChild path t → is_null t ≡ false
HasChild-there path null h = sym h
HasChild-there path (node s l r) h = refl

count_flat : (t : Node) → is_flat t ≡ true → (if is_null t then 0 else 1) ≡ node_count t
count_flat null h = refl
count_flat (node s null null) h = omega arith
count_flat (node s (node a b c) r) h = absurd (ground arith)
count_flat (node s null (node a b c)) h = absurd (ground arith)

pub prune-IsPruned :
    (s : ℕ) (l r : Node)
    → is_flat l ≡ true
    → is_flat r ≡ true
    → 0 < node_count l + node_count r
    → weight (node s l r) < u64
    → IsPruned (node s l r) (prune (node s l r)).0 (prune (node s l r)).1
unfolding prune
prune-IsPruned s l r p q h w =
    let cl = count_flat l p in
    let cr = count_flat r q in
    let wl = tsum_flat l p in
    let wr = tsum_flat r q in
    let some_weight : 0 < weight l + weight r = ground (arith, weight_flat l p, weight_flat r q) in
    let same : add64 (add64 s (tsum_of l)) (tsum_of r) ≡ s + (weight l + weight r) =
      omega (arith, wl, wr, w) in
    record {
      some_removed = omega (arith, cl, cr, h);
      fewer = omega (arith, cl, cr);
      same_weight = omega (arith, same);
      tips = λ u. (λ e. omega (arith, same, some_weight), tt, tt);
    }

prune_at-IsPruned :
    (path : List Bool) (t : Node)
    → Prunable path t
    → HasChild path t
    → weight t < u64
    → IsPruned t (prune_at path t).0 (prune_at path t).1
unfolding prune_at prune
prune_at-IsPruned path null p h w = absurd cc
prune_at-IsPruned [] (node s l r) p h w = prune-IsPruned s l r p.0 p.1 h w
prune_at-IsPruned (true ∷ path) (node s l r) p h w =
    let v = prune_at-IsPruned path r p h (omega (arith, w)) in
    record {
      some_removed = v.some_removed;
      fewer = omega (arith, v.fewer);
      same_weight = omega (arith, v.same_weight);
      tips = λ u. (
        λ e. absurd (ground (arith, prune_at_there path r (HasChild-there path r h))),
        u.1,
        v.tips u.2,
      );
    }
prune_at-IsPruned (false ∷ path) (node s l r) p h w =
    let v = prune_at-IsPruned path l p h (omega (arith, w)) in
    record {
      some_removed = v.some_removed;
      fewer = omega (arith, v.fewer);
      same_weight = omega (arith, v.same_weight);
      tips = λ u. (
        λ e. absurd (ground (arith, prune_at_there path l (HasChild-there path l h))),
        v.tips u.1,
        u.2,
      );
    }

-- The number of nodes is that of the tree, every tip below the root counts something, and the sum
-- fits its word.
pub record IsGrown (t : Iptree) : Type 0 where
  pub there : is_null t.root ≡ false
  pub counted : t.nodes ≡ below t.root
  pub tips : ChildrenCount t.root
  pub fits : weight t.root < u64

children_pruned :
    (path : List Bool) (t : Node)
    → Prunable path t
    → HasChild path t
    → weight t < u64
    → ChildrenCount t
    → ChildrenCount (prune_at path t).0
unfolding prune_at prune
children_pruned path null p h w v = absurd cc
children_pruned [] (node s l r) p h w v = (tt, tt)
children_pruned (true ∷ path) (node s l r) p h w v =
    (v.0, (prune_at-IsPruned path r p h (omega (arith, w))).tips v.1)
children_pruned (false ∷ path) (node s l r) p h w v =
    ((prune_at-IsPruned path l p h (omega (arith, w))).tips v.0, v.1)

pub node_count-below : (t : Node) → is_null t ≡ false → node_count t ≡ suc (below t)
node_count-below null h = absurd cc
node_count-below (node s l r) h = refl

pub below_leaf : (t : Node) → is_leaf t ≡ true → below t ≡ 0
below_leaf t h = below_flat t (ground arith)

pub prune_best_node-IsGrown :
    (t : Iptree)
    → IsGrown t
    → 0 < t.nodes
    → let (t', removed) = prune_best_node t in
      IsGrown t'
      × (0 < removed)
      × (t'.nodes + removed ≡ t.nodes)
      × (t'.maxnodes ≡ t.maxnodes)
      × (weight t'.root ≡ weight t.root)
unfolding prune_best_node
prune_best_node-IsGrown t v any =
    let P : Iptree × ℕ → Type 0 = λ q.
      IsGrown q.0
      × (0 < q.1)
      × (q.0.nodes + q.1 ≡ t.nodes)
      × (q.0.maxnodes ≡ t.maxnodes)
      × (weight q.0.root ≡ weight t.root) in
    if_either P (is_leaf t.root) _ _
      (λ e. absurd (omega (arith, below_leaf t.root e, v.counted, any)))
      (λ e.
        let path = (best_to_prune t.root 0).0 in
        let p = best_to_prune-Prunable t.root 0 (ground (arith, v.there)) in
        let h = best_to_prune-HasChild t.root 0 (omega (arith, v.counted, any)) v.tips in
        let r = prune_at-IsPruned path t.root p h v.fits in
        let there = prune_at_there path t.root v.there in
        let before = node_count-below t.root v.there in
        let after = node_count-below (prune_at path t.root).0 there in
        (
          record {
            there = there;
            counted = omega (arith, r.fewer, before, after, v.counted);
            tips = children_pruned path t.root p h v.fits v.tips;
            fits = omega (arith, r.same_weight, v.fits);
          },
          r.some_removed,
          omega (arith, r.fewer, before, after, v.counted),
          refl,
          r.same_weight,
        ))

prune_loop-le :
    (fuel : ℕ) (t : Iptree)
    → IsGrown t
    → t.nodes ≤ fuel
    → let t' = prune_loop fuel t in
      IsGrown t' × (t'.nodes ≤ t.maxnodes) × (weight t'.root ≡ weight t.root)
unfolding prune_loop
prune_loop-le zero t v f = (v, omega (arith, f), refl)
prune_loop-le (suc fuel) t v f =
    let out = prune_best_node t in
    let P : Iptree → Type 0 =
      λ q. IsGrown q × (q.nodes ≤ t.maxnodes) × (weight q.root ≡ weight t.root) in
    if_either P (ltb t.maxnodes t.nodes) _ _
      (λ full.
        let (v', any, fewer, same, heavy) = prune_best_node-IsGrown t v (ground (arith, full)) in
        let rest = prune_loop-le fuel out.0 v' (omega (arith, any, fewer, f)) in
        if_either P (out.1 == 0) _ _ (λ no. absurd (ground (arith, any)))
          (λ more. (rest.0, omega (arith, rest.1, same), rest.2 ∙ heavy)))
      (λ room. (v, ground arith, refl))

-- Pruning ends with as many nodes as the limit at most, which are those of the tree, and what the
-- tree counts together stays. Before, the number of nodes is that of the tree, every node below
-- the root without a child counts something, and the sum of the tree fits its word.
pub prune_if_needed-le :
    (t : Iptree)
    → IsGrown t
    → let t' = prune_if_needed t in
      IsGrown t' × (t'.nodes ≤ t.maxnodes) × (weight t'.root ≡ weight t.root)
unfolding prune_if_needed
prune_if_needed-le t v = prune_loop-le t.nodes t v (omega arith)
