-- ===== src/Netviz/Addresses.antt =====
-- src/netviz/address_histogram.cpp: the ten addresses with the most bytes.
pub mod Shown
use tcpflow.Base.{
  ℕ, zero, suc, ◌+◌, ◌-◌, ◌*◌, ◌/◌, ◌%◌, ◌^◌, ◌≤◌, ◌<◌, min, max, ◌≡◌, refl, sym, ap, ap₂, subst,
  ◌∙◌, fun_ext, ◌≢◌, ◌↔◌, ◌⊎◌, inl, inr, Bool, true, false, not, ◌&&◌, ◌||◌, Option, none, some,
  List, [], ◌∷◌, ◌++◌, map, append_assoc, append-nil, arith, dec_lt, dec_le, ℕ_discrete, length,
  get_elem?, set, length-append, length-set, get_elem?-set_self, get_elem?-set_ne, get_or, take,
  drop, replicate, take-append-drop, length-take, length-drop, length-replicate, length-map, ltb,
  leb, ◌==◌, if◌then◌else◌, ltb→lt, lt→ltb, leb→le, ==_iff, tests, Bool-cases, Option-cases,
  if_either, All, All-map, All-append,
}
use tcpflow.AddressTree.{Iptree, sum}
use tcpflow.AddressTree.Histogram.{AddrElem, get_histogram}
use tcpflow.Base.Sort.{sort}

-- The comparison of `n` bytes from the byte `i` on.
abbrev pub above_from : (i n : ℕ) → (a b : List ℕ) → Bool
above_from i zero a b = false
above_from i (suc n) a b =
    let rest = above_from (i + 1) n a b in
    if ltb (get_or b i 0) (get_or a i 0)
    then true
    else if ltb (get_or a i 0) (get_or b i 0)
    then false
    else rest

-- `iptree_node_comparator`.
unfoldable pub node_comparator : AddrElem → AddrElem → Bool
node_comparator a b =
    if ltb b.count a.count
    then true
    else if ltb a.count b.count
    then false
    else above_from 0 16 a.addr b.addr

abbrev pub bucket_count : ℕ
bucket_count = 10

pub record AddressHistogram : Type 0 where
  pub buckets : List AddrElem
  pub datagrams_ingested : ℕ

-- The constructor; a sort of the first ten alone keeps the same ten as a sort of all.
unfoldable pub new_address_histogram : Iptree → AddressHistogram
unfolding get_histogram node_comparator
new_address_histogram tree = record {
  buckets = take bucket_count (sort node_comparator (get_histogram 16 tree.root));
  datagrams_ingested = sum tree.root;
}

-- `at`, where `none` is its exception.
unfoldable pub at : ℕ → AddressHistogram → Option AddrElem
at index h = get_elem? h.buckets index
