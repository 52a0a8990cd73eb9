-- ===== src/AddressTree/Limit/Adding.antt =====
-- src/iptree.h: the number of nodes that `add` leaves.
use tcpflow.Base.{
  ℕ, zero, suc, ◌+◌, ◌*◌, ◌≤◌, ◌<◌, ◌≡◌, refl, ap, inl, inr, Bool, true, false, none, some, List,
  [], ◌∷◌, arith, length, take, Option-cases, if_either,
}
use tcpflow.Base.Word.{u64, add64}
use tcpflow.AddressTree.{
  bits_from, cache_search, cache_replace, add, add_at, count_at, made, one_if_null, subtree,
  is_null, is_leaf, Node, null, node, prune_if_needed, Iptree,
}
use tcpflow.AddressTree.Sum.{root-add_hit, root-add_miss}
use tcpflow.AddressTree.Limit.{
  node_count-below, TipsCount-children, node_count, below, weight, TipsCount, ChildrenCount,
  IsGrown, prune_if_needed-le,
}

-- A value was added: at most `room` nodes were made, the others are there, and the tips count.
record IsAdded (t t' : Node) (val made_nodes room : ℕ) : Type 0 where
  there : is_null t' ≡ false
  counted : node_count t' ≡ node_count t + made_nodes
  bounded : made_nodes ≤ room
  weighed : weight t' ≡ weight t + val
  tips : TipsCount t'

node_count-made : (t : Node) → node_count (made t) ≡ node_count t + one_if_null t
node_count-made null = refl
node_count-made (node s l r) = omega arith

weight-made : (t : Node) → weight (made t) ≡ weight t
weight-made null = refl
weight-made (node s l r) = refl

ChildrenCount-made : (t : Node) → TipsCount t → ChildrenCount (made t)
ChildrenCount-made null v = (tt, tt)
ChildrenCount-made (node s l r) v = (v.1, v.2)

made_there : (t : Node) → is_null (made t) ≡ false
made_there null = refl
made_there (node s l r) = refl

one_if_null-le : (t : Node) → one_if_null t ≤ 1
one_if_null-le null = omega arith
one_if_null-le (node s l r) = omega arith

here-IsAdded :
    (s val room : ℕ) (l r : Node)
    → 0 < val
    → weight (node s l r) + val < u64
    → TipsCount l
    → TipsCount r
    → IsAdded (node s l r) (node (add64 s val) l r) val 0 room
here-IsAdded s val room l r p w vl vr =
    let sum : add64 s val ≡ s + val = omega (arith, w) in
    record {
      there = refl;
      counted = omega arith;
      bounded = omega arith;
      weighed = omega (arith, sum);
      tips = (λ e. omega (arith, sum, p), vl, vr);
    }

add_at-IsAdded :
    (bits : List Bool) (val : ℕ) (t : Node)
    → is_null t ≡ false
    → 0 < val
    → weight t + val < u64
    → ChildrenCount t
    → let (t', made_nodes, path) = add_at bits val t in IsAdded t t' val made_nodes (length bits)
unfolding add_at
add_at-IsAdded bits val null h p w v = absurd cc
add_at-IsAdded [] val (node s l r) h p w v = here-IsAdded s val 0 l r p w v.0 v.1
add_at-IsAdded (b ∷ bits) val (node s l r) h p w v =
    let P : Node × ℕ × List Bool → Type 0 =
      λ q. IsAdded (node s l r) q.0 val q.1 (suc (length bits)) in
    if_either P (is_leaf (node s l r)) _ _
      (λ e. here-IsAdded s val (suc (length bits)) l r p w v.0 v.1)
      (λ e.
        if_either P b _ _
          (λ right.
            let u =
              add_at-IsAdded bits val (made r) (made_there r) p (omega (arith, w, weight-made r))
                (ChildrenCount-made r v.1) in
            record {
              there = refl;
              counted = omega (arith, u.counted, node_count-made r);
              bounded = omega (arith, u.bounded, one_if_null-le r);
              weighed = omega (arith, u.weighed, weight-made r);
              tips = (λ both. absurd (ground (arith, u.there)), v.0, u.tips);
            })
          (λ left.
            let u =
              add_at-IsAdded bits val (made l) (made_there l) p (omega (arith, w, weight-made l))
                (ChildrenCount-made l v.0) in
            record {
              there = refl;
              counted = omega (arith, u.counted, node_count-made l);
              bounded = omega (arith, u.bounded, one_if_null-le l);
              weighed = omega (arith, u.weighed, weight-made l);
              tips = (λ both. absurd (ground (arith, u.there)), u.tips, v.1);
            }))

TipsCount-count_at :
    (path : List Bool) (val : ℕ) (t : Node)
    → is_null (subtree path t) ≡ false
    → 0 < val
    → weight t + val < u64
    → (node_count (count_at path val t) ≡ node_count t)
      × (weight (count_at path val t) ≡ weight t + val)
      × (is_null (count_at path val t) ≡ false)
      × (TipsCount t → TipsCount (count_at path val t))
      × (ChildrenCount t → ChildrenCount (count_at path val t))
TipsCount-count_at path val null h p w = absurd cc
TipsCount-count_at [] val (node s l r) h p w =
    let sum : add64 s val ≡ s + val = omega (arith, w) in
    (refl, omega (arith, sum), refl, λ v. (λ e. omega (arith, sum, p), v.1, v.2), λ v. v)
TipsCount-count_at (true ∷ path) val (node s l r) h p w =
    let u = TipsCount-count_at path val r h p (omega (arith, w)) in
    (
      omega (arith, u.0),
      omega (arith, u.1),
      refl,
      λ v. (λ both. absurd (ground (arith, u.2)), v.1, u.3 v.2),
      λ v. (v.0, u.3 v.1),
    )
TipsCount-count_at (false ∷ path) val (node s l r) h p w =
    let u = TipsCount-count_at path val l h p (omega (arith, w)) in
    (
      omega (arith, u.0),
      omega (arith, u.1),
      refl,
      λ v. (λ both. absurd (ground (arith, u.2)), u.3 v.1, v.2),
      λ v. (u.3 v.0, v.1),
    )

module _ (addrbytes : ℕ) (addr : List ℕ) (val : ℕ) (t : Iptree) where
  abbrev short : List ℕ
  short = take addrbytes addr

  nodes-add_hit :
      (path : List Bool)
      → cache_search short (prune_if_needed t).cache ≡ some path
      → (add addrbytes addr val t).nodes ≡ (prune_if_needed t).nodes
  unfolding add
  nodes-add_hit path e = ground (arith, e)

  nodes-add_miss :
      cache_search short (prune_if_needed t).cache ≡ none
      → (add addrbytes addr val t).nodes
        ≡ (prune_if_needed t).nodes
          + (add_at (bits_from short 0 (8 * length short)) val (prune_if_needed t).root).1
  unfolding add cache_replace
  nodes-add_miss e = ground (arith, e)

IsGrown-root :
    (t : Iptree) (r : Node)
    → t.root ≡ r
    → is_null r ≡ false
    → t.nodes ≡ below r
    → ChildrenCount r
    → weight r < u64
    → IsGrown t
IsGrown-root t r e there counted tips fits = record {
  there = rw e there;
  counted = rw e counted;
  tips = rw e tips;
  fits = rw e fits;
}

length-bits_from : (addr : List ℕ) (i n : ℕ) → length (bits_from addr i n) ≡ n
length-bits_from addr i zero = refl
length-bits_from addr i (suc n) = ap suc (length-bits_from addr (i + 1) n)

-- `add` of a value that is not 0, where the sum still fits its word, keeps the number of nodes that
-- of the tree and every tip counting, and leaves at most the bits of one address above the limit.
-- An entry of the cache for the address, after pruning, has to be that of a node of the tree.
pub add-IsGrown :
    (addrbytes : ℕ) (addr : List ℕ) (val : ℕ) (t : Iptree)
    → IsGrown t
    → 0 < val
    → weight t.root + val < u64
    → ((path : List Bool)
        → cache_search (take addrbytes addr) (prune_if_needed t).cache ≡ some path
        → is_null (subtree path (prune_if_needed t).root) ≡ false)
    → let t' = add addrbytes addr val t in
      IsGrown t' × (t'.nodes ≤ t.maxnodes + 8 * length (take addrbytes addr))
add-IsGrown addrbytes addr val t v p w alive =
    let s = take addrbytes addr in
    let q = prune_if_needed t in
    let (vq, room, heavy) = prune_if_needed-le t v in
    elim (Option-cases (cache_search s q.cache)) [
      | inl miss ↦
          let bits = bits_from s 0 (8 * length s) in
          let u = add_at-IsAdded bits val q.root vq.there p (omega (arith, w, heavy)) vq.tips in
          let nodes = nodes-add_miss addrbytes addr val t miss in
          let before = node_count-below q.root vq.there in
          let after = node_count-below (add_at bits val q.root).0 u.there in
          (
            IsGrown-root (add addrbytes addr val t) (add_at bits val q.root).0
                (root-add_miss addrbytes addr val t miss) u.there
                (omega (arith, nodes, vq.counted, u.counted, before, after))
                (TipsCount-children (add_at bits val q.root).0 u.tips)
                (omega (arith, u.weighed, w, heavy)),
            omega (arith, nodes, room, u.bounded, length-bits_from s 0 (8 * length s)),
          )
      | inr (path, hit) ↦
          let (count, weighed, there, deep, tips) =
            TipsCount-count_at path val q.root (alive path hit) p (omega (arith, w, heavy)) in
          let nodes = nodes-add_hit addrbytes addr val t path hit in
          let before = node_count-below q.root vq.there in
          let after = node_count-below (count_at path val q.root) there in
          (
            IsGrown-root (add addrbytes addr val t) (count_at path val q.root)
                (root-add_hit addrbytes addr val t path hit) there
                (omega (arith, nodes, vq.counted, count, before, after)) (tips vq.tips)
                (omega (arith, weighed, w, heavy)),
            omega (arith, nodes, room),
          )
    ]
