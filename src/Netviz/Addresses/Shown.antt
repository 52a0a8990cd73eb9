-- ===== src/Netviz/Addresses/Shown.antt =====
-- src/netviz/address_histogram.cpp: which addresses are shown.
use tcpflow.Base.{
  ℕ, zero, suc, ◌+◌, ◌≤◌, min, ◌≡◌, refl, ap, ◌∙◌, Bool, true, false, List, [], ◌∷◌, arith, length,
  take, drop, length-take, All, All-map,
}
use tcpflow.AddressTree.{Iptree}
use tcpflow.AddressTree.Histogram.{AddrElem, get_histogram}
use tcpflow.Base.Sort.{
  sort, count_if, Before, IsSorted, sort-IsSorted, IsSorted-take, count_if-split, count_if-sort,
  length-sort,
}
use tcpflow.Netviz.Addresses.{above_from, node_comparator, new_address_histogram}

above_from_asym : (i n : ℕ) (a b : List ℕ) → above_from i n a b ≡ true → above_from i n b a ≡ false
above_from_asym i zero a b h = refl
above_from_asym i (suc n) a b h = ground (arith, above_from_asym (i + 1) n a b)

above_from_trans :
    (i n : ℕ) (a b c : List ℕ)
    → above_from i n b a ≡ false
    → above_from i n c b ≡ false
    → above_from i n c a ≡ false
above_from_trans i zero a b c h k = refl
above_from_trans i (suc n) a b c h k = ground (arith, above_from_trans (i + 1) n a b c)

node_comparator-Before : Before node_comparator
unfolding node_comparator
node_comparator-Before = record {
  asym = λ a b h. ground (arith, above_from_asym 0 16 a.addr b.addr);
  trans = λ a b c h k. ground (arith, above_from_trans 0 16 a.addr b.addr c.addr);
}

-- Each entry counts no less than those behind it.
abbrev pub Descending : List AddrElem → Type 0
Descending [] = Unit {0}
Descending (x ∷ l) = All (λ y. y.count ≤ x.count) l × Descending l

comparator_le : (x y : AddrElem) → node_comparator y x ≡ false → y.count ≤ x.count
unfolding node_comparator
comparator_le x y h = ground (arith, h)

IsSorted-Descending : (l : List AddrElem) → IsSorted node_comparator l → Descending l
IsSorted-Descending [] h = tt
IsSorted-Descending (x ∷ l) h =
    (All-map _ _ l (λ y e. comparator_le x y e) h.0, IsSorted-Descending l h.1)

-- Ten entries of the histogram of addresses are shown, or all where it has fewer, each no smaller
-- than the next. What is left out are the other entries, no more and no less, and none of them
-- counts more than one that is shown.
pub buckets-new_address_histogram :
    (tree : Iptree)
    → let all = get_histogram 16 tree.root in
      let shown = (new_address_histogram tree).buckets in
      (length shown ≡ min 10 (length all))
      × Descending shown
      × ((left : List AddrElem) × ((p : AddrElem → Bool)
            → count_if p shown + count_if p left ≡ count_if p all)
          × All (λ x. All (λ y. y.count ≤ x.count) left) shown)
unfolding new_address_histogram
buckets-new_address_histogram tree =
    let all = get_histogram 16 tree.root in
    let sorted = sort node_comparator all in
    let left = drop 10 sorted in
    let (kept, cut) =
      IsSorted-take node_comparator 10 sorted
        (sort-IsSorted node_comparator node_comparator-Before all) in
    (
      length-take 10 sorted ∙ ap (min 10) (length-sort node_comparator all),
      IsSorted-Descending (take 10 sorted) kept,
      (
        left,
        λ p. count_if-split node_comparator p 10 sorted ∙ count_if-sort node_comparator p all,
        All-map _ _ (take 10 sorted)
            (λ x.
              All-map (λ y. node_comparator y x ≡ false) (λ y. y.count ≤ x.count) left
                (λ y e. comparator_le x y e))
            cut,
      ),
    )
