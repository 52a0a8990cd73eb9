-- ===== src/Tests/AddressTree.antt =====
-- A tree of one-byte addresses with room for three nodes.
use tcpflow.Base.{
  ℕ, ◌+◌, ◌≤◌, ◌<◌, min, ◌≡◌, refl, Bool, true, false, some, List, [], ◌∷◌, arith, length, take,
  All,
}
use tcpflow.AddressTree.{
  is_null, null, bits_from, subtree, node, Node, bit, tsum_of, Iptree, sum, new_tree, add,
  prune_if_needed, prune_loop, prune_best_node, prune_at, prune, best_to_prune, cache_remove,
  cache_search, cache_replace, add_at,
}
use tcpflow.AddressTree.Limit.Total.{sum-add}
use tcpflow.AddressTree.Histogram.{
  AddrElem, counts_total, histogram_from, get_histogram, counts_total-get_histogram,
}
use tcpflow.AddressTree.Names.{get_histogram-names}
use tcpflow.AddressTree.Stale.{cache_search-cache_remove}
use tcpflow.AddressTree.Limit.{IsGrown}
use tcpflow.AddressTree.Limit.Adding.{add-IsGrown}
use tcpflow.AddressTree.Bits.{set_bit}
use tcpflow.AddressTree.Pairs.{set_if, interleave, un_pair}
use tcpflow.AddressTree.Pairs.Apart.{un_pair-interleave}
use tcpflow.Base.Sort.{count_if}
use tcpflow.Netviz.Addresses.{new_address_histogram}
use tcpflow.Netviz.Addresses.Shown.{Descending, buckets-new_address_histogram}

-- Address 128 was added with 5: a path of eight nodes.
abbrev grown : Iptree
grown = add 1 (128 ∷ []) 5 (new_tree 1 3)

all_open : Unit {0}
unfolding new_tree add prune_if_needed prune_loop prune_best_node prune_at prune best_to_prune
    cache_remove cache_search cache_replace add_at
all_open = tt

grown_nodes : (grown.nodes ≡ 8) × ((prune_if_needed grown).nodes ≡ 3)
unfolding all_open
grown_nodes = (refl, refl)

grown-IsGrown : IsGrown grown
unfolding all_open
grown-IsGrown =
    let inner : false ≡ true → 0 < 0 = λ e. absurd cc in
    record {
      there = refl;
      counted = refl;
      tips = (
        tt,
        (
          inner,
          (
            inner,
            (
              inner,
              (inner, (inner, (inner, (inner, (λ e. omega arith, tt, tt), tt), tt), tt), tt),
              tt,
            ),
            tt,
          ),
          tt,
        ),
      );
      fits = omega arith;
    }

sum-add_example : sum (add 1 (1 ∷ []) 7 grown).root ≡ sum grown.root + 7
unfolding all_open
sum-add_example =
    sum-add 1 (1 ∷ []) 7 grown grown-IsGrown (omega arith) (omega arith) (λ path e. cc)

-- The root counts 2 and the addresses that begin with a one 7.
abbrev small : Node
small = node 2 null (node 7 null null)

small_histogram :
    get_histogram 1 small
    ≡ record { addr = 0 ∷ []; depth = 0; count = 2 }
      ∷ record { addr = 128 ∷ []; depth = 1; count = 7 }
      ∷ []
unfolding get_histogram histogram_from set_bit
small_histogram = refl

counts_total-get_histogram_example : counts_total (get_histogram 1 small) ≡ sum small
counts_total-get_histogram_example = counts_total-get_histogram 1 small (omega arith)

get_histogram-names_example :
    All
      (λ e. tsum_of (subtree (bits_from e.addr 0 e.depth) small) ≡ e.count)
      (get_histogram 1 small)
get_histogram-names_example = get_histogram-names 1 small (omega arith)

abbrev small_tree : Iptree
small_tree = record {
  root = small;
  nodes = 1;
  maxnodes = 100;
  ctr_added = 1;
  pruned = 0;
  cache = [];
  cachenext = 0;
  cache_hits = 0;
  cache_misses = 1;
}

buckets-new_address_histogram_example :
    let shown = (new_address_histogram small_tree).buckets in
    (length shown ≡ min 10 (length (get_histogram 16 small)))
    × Descending shown
    × ((left : List AddrElem) × ((p : AddrElem → Bool)
          → count_if p shown + count_if p left ≡ count_if p (get_histogram 16 small))
        × All (λ x. All (λ y. y.count ≤ x.count) left) shown)
buckets-new_address_histogram_example = buckets-new_address_histogram small_tree

abbrev home : List ℕ
home = 10 ∷ 0 ∷ 0 ∷ 1 ∷ []

abbrev away : List ℕ
away = 10 ∷ 0 ∷ 0 ∷ 2 ∷ []

interleaved : take 8 (interleave home away 32) ≡ 0 ∷ 204 ∷ 0 ∷ 0 ∷ 0 ∷ 0 ∷ 0 ∷ 6 ∷ []
unfolding interleave set_if set_bit
interleaved = refl

un_pair-interleave_example :
    let p = un_pair (interleave home away 32) 64 in
    ((i : ℕ) → i < 32 → bit p.addr1 i ≡ bit home i)
    × ((i : ℕ) → i < 32 → bit p.addr2 i ≡ bit away i)
    × (p.depth1 ≡ 32)
    × (p.depth2 ≡ 32)
un_pair-interleave_example = un_pair-interleave home away 4 (omega arith)

-- Two addresses share the leaf of the path 0; the tree then prunes it, and the second address of
-- the two still leads to it.
abbrev shared_leaf : Iptree
shared_leaf =
    add 1 (192 ∷ []) 2 (add 1 (1 ∷ []) 2 (add 1 (2 ∷ []) 5 (add 1 (64 ∷ []) 9 (new_tree 1 1))))

stale_entry :
    let t = prune_if_needed shared_leaf in
    (cache_search (1 ∷ []) t.cache ≡ some (false ∷ []))
    × (is_null (subtree (false ∷ []) t.root) ≡ true)
unfolding all_open
stale_entry = (refl, refl)

cache_search-cache_remove_example :
    cache_search (1 ∷ []) (
      cache_remove (false ∷ []) (
        record { addr = 2 ∷ []; ptr = some (false ∷ []) }
        ∷ record { addr = 1 ∷ []; ptr = some (false ∷ []) }
        ∷ []))
    ≡ some (false ∷ [])
cache_search-cache_remove_example =
    cache_search-cache_remove (false ∷ []) (record { addr = 2 ∷ []; ptr = some (false ∷ []) })
      (record { addr = 1 ∷ []; ptr = some (false ∷ []) }) [] refl refl

small-IsGrown : IsGrown small_tree
small-IsGrown = record {
  there = refl;
  counted = refl;
  tips = (tt, (λ e. omega arith, tt, tt));
  fits = omega arith;
}

add-IsGrown_example :
    IsGrown (add 1 (1 ∷ []) 7 small_tree) × ((add 1 (1 ∷ []) 7 small_tree).nodes ≤ 108)
unfolding all_open
add-IsGrown_example =
    add-IsGrown 1 (1 ∷ []) 7 small_tree small-IsGrown (omega arith) (omega arith)
      (λ path e. absurd cc)
