-- ===== src/AddressTree.antt =====
-- src/iptree.h: the radix tree that counts by address, with a limit on its nodes. A node is known
-- by the bits that lead to it. The fields `dirty` and `cached_best` are written and never used, so
-- they are left out. So are the assertions.
pub mod Sum
pub mod Bits
pub mod Histogram
pub mod Names
pub mod Pairs
pub mod Stale
pub mod Limit
use tcpflow.Base.{
  ℕ, zero, suc, ◌+◌, ◌-◌, ◌*◌, ◌/◌, ◌%◌, ◌^◌, ◌≤◌, ◌<◌, min, max, ◌≡◌, refl, sym, ap, ap₂, subst,
  ◌∙◌, fun_ext, ◌≢◌, ◌↔◌, ◌⊎◌, inl, inr, Bool, true, false, not, ◌&&◌, ◌||◌, Option, none, some,
  List, [], ◌∷◌, ◌++◌, map, append_assoc, append-nil, arith, dec_lt, dec_le, ℕ_discrete, length,
  get_elem?, set, length-append, length-set, get_elem?-set_self, get_elem?-set_ne, get_or, take,
  drop, replicate, take-append-drop, length-take, length-drop, length-replicate, length-map, ltb,
  leb, ◌==◌, if◌then◌else◌, ltb→lt, lt→ltb, leb→le, ==_iff, tests, Bool-cases, Option-cases,
  if_either, All, All-map, All-append,
}
use tcpflow.Base.Word.{add64}

-- `null` is the null pointer.
pub data Node : Type 0 where
  null : Node
  node : (tsum : ℕ) → (ptr0 ptr1 : Node) → Node

abbrev pub is_null : Node → Bool
is_null null = true
is_null (node s l r) = false

abbrev pub tsum_of : Node → ℕ
tsum_of null = 0
tsum_of (node s l r) = s

-- `isLeaf`.
abbrev pub is_leaf : Node → Bool
is_leaf null = false
is_leaf (node s l r) = ltb 0 s && (is_null l && is_null r)

-- `sum`.
abbrev pub sum : Node → ℕ
sum null = 0
sum (node s l r) = add64 (add64 s (sum l)) (sum r)

-- What the pointer leads to when a missing node is made.
abbrev pub made : Node → Node
made null = node 0 null null
made (node s l r) = node s l r

abbrev pub one_if_null : Node → ℕ
one_if_null null = 1
one_if_null (node s l r) = 0

-- The bits of an address, the most significant first.
abbrev pub bit : List ℕ → ℕ → Bool
bit addr i = get_or addr (i / 8) 0 / 2 ^ (7 - i % 8) % 2 == 1

abbrev pub bits_from : List ℕ → (i n : ℕ) → List Bool
bits_from addr i zero = []
bits_from addr i (suc n) = bit addr i ∷ bits_from addr (i + 1) n

-- The descent of `add`: the tree, the number of nodes made and the path of the node that counts.
unfoldable pub add_at : List Bool → (val : ℕ) → Node → Node × ℕ × List Bool
add_at bits val null = (null, 0, [])
add_at [] val (node s l r) = (node (add64 s val) l r, 0, [])
add_at (b ∷ bits) val (node s l r) =
    let (l', m, path0) = add_at bits val (made l) in
    let (r', n, path1) = add_at bits val (made r) in
    if is_leaf (node s l r)
    then (node (add64 s val) l r, 0, [])
    else if b
    then (node s l r', one_if_null r + n, true ∷ path1)
    else (node s l' r, one_if_null l + m, false ∷ path0)

-- `node::prune`, with the number of children removed.
unfoldable pub prune : Node → Node × ℕ
prune null = (null, 0)
prune (node s l r) = (
  node (add64 (add64 s (tsum_of l)) (tsum_of r)) null null,
  (if is_null l then 0 else 1) + (if is_null r then 0 else 1),
)

abbrev pub subtree : List Bool → Node → Node
subtree path null = null
subtree [] (node s l r) = node s l r
subtree (b ∷ path) (node s l r) = if b then subtree path r else subtree path l

-- A child that is missing or a leaf.
abbrev pub is_flat : Node → Bool
is_flat t = is_null t || is_leaf t

-- Whether the first of two nodes is the better one to prune: a lower sum, or as low and deeper.
abbrev pub is_better : (sum0 sum1 depth0 depth1 : ℕ) → Bool
is_better sum0 sum1 depth0 depth1 = ltb sum0 sum1 || (sum0 == sum1 && ltb depth1 depth0)

-- `best_to_prune`: the path and the depth of the node.
unfoldable pub best_to_prune : Node → ℕ → List Bool × ℕ
best_to_prune null depth = ([], depth)
best_to_prune (node s l r) depth =
    let (path0, depth0) = best_to_prune l (depth + 1) in
    let (path1, depth1) = best_to_prune r (depth + 1) in
    let sum0 = sum (subtree path0 l) in
    let sum1 = sum (subtree path1 r) in
    if is_flat l && is_flat r
    then ([], depth)
    else if is_flat l
    then (true ∷ path1, depth1)
    else if is_flat r
    then (false ∷ path0, depth0)
    else if is_better sum0 sum1 depth0 depth1
    then (false ∷ path0, depth0)
    else (true ∷ path1, depth1)

-- `prune` of the node at a path.
unfoldable pub prune_at : List Bool → Node → Node × ℕ
unfolding prune
prune_at path null = (null, 0)
prune_at [] (node s l r) = prune (node s l r)
prune_at (b ∷ path) (node s l r) =
    let (l', m) = prune_at path l in
    let (r', n) = prune_at path r in if b then (node s l r', n) else (node s l' r, m)

-- An entry of the cache: an address and the path of its node, if it is in use.
pub record CacheElement : Type 0 where
  pub addr : List ℕ
  pub ptr : Option (List Bool)

pub record Iptree : Type 0 where
  pub root : Node
  pub nodes : ℕ
  pub maxnodes : ℕ
  pub ctr_added : ℕ
  pub pruned : ℕ
  pub cache : List CacheElement
  pub cachenext : ℕ
  pub cache_hits : ℕ
  pub cache_misses : ℕ

-- The constructor: an empty root and four unused entries.
unfoldable pub new_tree : (addrbytes maxnodes : ℕ) → Iptree
new_tree addrbytes maxnodes = record {
  root = node 0 null null;
  nodes = 0;
  maxnodes = maxnodes;
  ctr_added = 0;
  pruned = 0;
  cache = replicate 4 (record { addr = replicate addrbytes 0; ptr = none });
  cachenext = 0;
  cache_hits = 0;
  cache_misses = 0;
}

abbrev pub same_path : List Bool → List Bool → Bool
same_path [] [] = true
same_path [] (b ∷ q) = false
same_path (a ∷ p) [] = false
same_path (a ∷ p) (b ∷ q) = (if a then b else not b) && same_path p q

abbrev pub points_to : List Bool → CacheElement → Bool
points_to path e = elim e.ptr [ none ↦ false | some q ↦ same_path q path ]

-- `cache_remove`: the first entry for the node.
unfoldable pub cache_remove : List Bool → List CacheElement → List CacheElement
cache_remove path [] = []
cache_remove path (e ∷ cache) =
    let rest = cache_remove path cache in
    if points_to path e then record e { ptr = none } ∷ cache else e ∷ rest

-- `memcmp` of the first bytes.
abbrev pub same_prefix : List ℕ → List ℕ → Bool
same_prefix a [] = true
same_prefix [] (y ∷ b) = false
same_prefix (x ∷ a) (y ∷ b) = x == y && same_prefix a b

-- `cache_search`: the node of the first entry in use for the address.
unfoldable pub cache_search : List ℕ → List CacheElement → Option (List Bool)
cache_search addr [] = none
cache_search addr (e ∷ cache) =
    let rest = cache_search addr cache in
    elim e.ptr [ none ↦ rest | some path ↦ if same_prefix e.addr addr then some path else rest ]

-- `cache_replace`; the rest of an entry's bytes stays.
unfoldable pub cache_replace : List ℕ → List Bool → Iptree → Iptree
cache_replace addr path t =
    let next = if leb (length t.cache) (t.cachenext + 1) then 0 else t.cachenext + 1 in
    elim (get_elem? t.cache next) [
      | none ↦ t
      | some e ↦ record t {
        cachenext = next;
        cache =
            set t.cache next (record { addr = addr ++ drop (length addr) e.addr; ptr = some path });
      }
    ]

-- `prune_best_node`, with the number of nodes removed.
unfoldable pub prune_best_node : Iptree → Iptree × ℕ
unfolding best_to_prune prune_at cache_remove
prune_best_node t =
    if is_leaf t.root
    then (t, 0)
    else let path = (best_to_prune t.root 0).0 in
      let (root, removed) = prune_at path t.root in
      (
        record t {
          root = root;
          nodes = t.nodes - removed;
          pruned = add64 t.pruned removed;
          cache = cache_remove (path ++ true ∷ []) (cache_remove (path ++ false ∷ []) t.cache);
        },
        removed,
      )

-- The loop of `prune_if_needed`: it ends in a round that removes nothing, so the number of nodes
-- is enough fuel.
unfoldable pub prune_loop : ℕ → Iptree → Iptree
unfolding prune_best_node
prune_loop zero t = t
prune_loop (suc fuel) t =
    let (t', removed) = prune_best_node t in
    let rest = prune_loop fuel t' in
    if ltb t.maxnodes t.nodes then (if removed == 0 then t' else rest) else t

unfoldable pub prune_if_needed : Iptree → Iptree
unfolding prune_loop
prune_if_needed t = prune_loop t.nodes t

-- `tsum += val` of the node at a path.
abbrev pub count_at : List Bool → ℕ → Node → Node
count_at path val null = null
count_at [] val (node s l r) = node (add64 s val) l r
count_at (b ∷ path) val (node s l r) =
    let l' = count_at path val l in
    let r' = count_at path val r in if b then node s l r' else node s l' r

-- `add` of an address of at most `addrbytes` bytes.
unfoldable pub add : (addrbytes : ℕ) → List ℕ → ℕ → Iptree → Iptree
unfolding prune_if_needed cache_search cache_replace add_at
add addrbytes whole val t =
    let p = prune_if_needed t in
    let addr = take addrbytes whole in
    elim (cache_search addr p.cache) [
      | some path ↦ record p { root = count_at path val p.root; cache_hits = add64 p.cache_hits 1 }
      | none ↦
          let (root, made_nodes, path) = add_at (bits_from addr 0 (8 * length addr)) val p.root in
          cache_replace addr path (record p {
            root = root;
            nodes = p.nodes + made_nodes;
            ctr_added = add64 p.ctr_added made_nodes;
            cache_misses = add64 p.cache_misses 1;
          })
    ]
