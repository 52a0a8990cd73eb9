-- ===== src/AddressTree/Names.antt =====
-- src/iptree.h: the address and the depth of an entry of the histogram lead to its node.
use tcpflow.Base.{
  ℕ, zero, suc, ◌+◌, ◌-◌, ◌*◌, ◌/◌, ◌%◌, ◌^◌, ◌≤◌, ◌<◌, ◌≡◌, refl, sym, ap, subst, ◌∙◌, false, List,
  [], ◌∷◌, ◌++◌, arith, dec_lt, length, length-append, get_or, take, replicate, length-take,
  length-replicate, ltb, ◌==◌, if_either, All, All-map, All-append,
}
use tcpflow.AddressTree.{Node, null, node, bit, bits_from, subtree, tsum_of}
use tcpflow.AddressTree.Bits.{
  cases_below_8, set_bit, bit-set_bit_same, bit-set_bit_other, length-set_bit,
}
use tcpflow.AddressTree.Histogram.{
  AddrElem, own_elem, zero_padded, max_histogram_depth, histogram_from, get_histogram, height,
}

-- From a node at a depth on, the bits of the entry lead to a node with its count.
record IsNamed (depth : ℕ) (addr : List ℕ) (t : Node) (e : AddrElem) : Type 0 where
  deep : depth ≤ e.depth
  shared : (i : ℕ) → i < depth → bit e.addr i ≡ bit addr i
  counted : tsum_of (subtree (bits_from e.addr depth (e.depth - depth)) t) ≡ e.count

-- An address of which the bits from a depth on are clear.
record IsClear (addrbytes depth : ℕ) (addr : List ℕ) : Type 0 where
  size : length addr ≡ addrbytes
  clear : (i : ℕ) → depth ≤ i → bit addr i ≡ false

pub get_or-replicate : (n i : ℕ) → get_or {A = ℕ} (replicate n 0) i 0 ≡ 0
get_or-replicate zero i = refl
get_or-replicate (suc n) zero = refl
get_or-replicate (suc n) (suc i) = get_or-replicate n i

get_or-padded_in :
    (addr : List ℕ) (pad n i : ℕ)
    → i < n
    → get_or (take n addr ++ replicate pad 0) i 0 ≡ get_or addr i 0
get_or-padded_in addr pad zero i h = absurd (omega (arith, h))
get_or-padded_in [] pad (suc n) i h = get_or-replicate pad i
get_or-padded_in (x ∷ addr) pad (suc n) zero h = refl
get_or-padded_in (x ∷ addr) pad (suc n) (suc i) h = get_or-padded_in addr pad n i (omega (arith, h))

get_or-padded_out :
    (addr : List ℕ) (pad n i : ℕ) → n ≤ i → get_or (take n addr ++ replicate pad 0) i 0 ≡ 0
get_or-padded_out addr pad zero i h = get_or-replicate pad i
get_or-padded_out [] pad (suc n) i h = get_or-replicate pad i
get_or-padded_out (x ∷ addr) pad (suc n) zero h = absurd (omega (arith, h))
get_or-padded_out (x ∷ addr) pad (suc n) (suc i) h =
    get_or-padded_out addr pad n i (omega (arith, h))

pub bit_clear : (addr : List ℕ) (i : ℕ) → get_or addr (i / 8) 0 ≡ 0 → bit addr i ≡ false
bit_clear addr i h =
    ap (λ b. b / 2 ^ (7 - i % 8) % 2 == 1) h
    ∙ cases_below_8 (λ k. (0 / 2 ^ k % 2 == 1) ≡ false) refl refl refl refl refl refl refl refl
        (7 - i % 8) (omega arith)

bit-zero_padded :
    (addrbytes depth : ℕ) (addr : List ℕ) (i : ℕ)
    → IsClear addrbytes depth addr
    → bit (zero_padded addrbytes addr ((depth + 7) / 8)) i ≡ bit addr i
bit-zero_padded addrbytes depth addr i c =
    let n = (depth + 7) / 8 in
    elim (dec_lt (i / 8) n) [
      | yes inside ↦
          ap (λ b. b / 2 ^ (7 - i % 8) % 2 == 1)
            (get_or-padded_in addr (addrbytes - n) n (i / 8) inside)
      | no outside ↦
          bit_clear _ i (get_or-padded_out addr (addrbytes - n) n (i / 8) (omega arith))
          ∙ sym (c.clear i (omega arith))
    ]

bits_from-step :
    (a : List ℕ) (depth d : ℕ)
    → depth + 1 ≤ d
    → bits_from a depth (d - depth) ≡ bit a depth ∷ bits_from a (depth + 1) (d - (depth + 1))
bits_from-step a depth d h =
    let one_more : d - depth ≡ suc (d - (depth + 1)) = omega (arith, h) in
    ap (bits_from a depth) one_more

-- The addresses of the two children.
module _ (addrbytes depth : ℕ) (addr : List ℕ) (c : IsClear addrbytes depth addr) where
  abbrev base : List ℕ
  base = zero_padded addrbytes addr ((depth + 7) / 8)

  length-base : depth < 8 * addrbytes → length base ≡ addrbytes
  length-base h =
      length-append (take ((depth + 7) / 8) addr) (replicate (addrbytes - (depth + 7) / 8) 0)
      ∙ omega (
        arith,
        length-take ((depth + 7) / 8) addr,
        length-replicate (addrbytes - (depth + 7) / 8) (ℕ.zero),
        c.size,
        h,
      )

  base-IsClear : depth < 8 * addrbytes → IsClear addrbytes (depth + 1) base
  base-IsClear h = record {
    size = length-base h;
    clear = λ i above. bit-zero_padded addrbytes depth addr i c ∙ c.clear i (omega (arith, above));
  }

  set_bit-IsClear : depth < 8 * addrbytes → IsClear addrbytes (depth + 1) (set_bit base depth)
  set_bit-IsClear h = record {
    size = length-set_bit base depth ∙ length-base h;
    clear = λ i above.
        bit-set_bit_other base depth i (omega (arith, h, length-base h)) (omega (arith, above))
        ∙ (base-IsClear h).clear i above;
  }

  left-IsNamed :
      (s : ℕ) (l r : Node) (e : AddrElem)
      → IsNamed (depth + 1) base l e
      → IsNamed depth addr (node s l r) e
  left-IsNamed s l r e v = record {
    deep = omega (arith, v.deep);
    shared = λ i h. v.shared i (omega (arith, h)) ∙ bit-zero_padded addrbytes depth addr i c;
    counted =
        ap (λ p. tsum_of (subtree p (node s l r)))
          (bits_from-step e.addr depth e.depth v.deep
            ∙ ap (λ b. b ∷ bits_from e.addr (depth + 1) (e.depth - (depth + 1)))
                (v.shared depth (omega arith)
                  ∙ bit-zero_padded addrbytes depth addr depth c
                  ∙ c.clear depth (omega arith)))
        ∙ v.counted;
  }

  right-IsNamed :
      (s : ℕ) (l r : Node) (e : AddrElem)
      → depth < 8 * addrbytes
      → IsNamed (depth + 1) (set_bit base depth) r e
      → IsNamed depth addr (node s l r) e
  right-IsNamed s l r e h v =
      let inside : depth / 8 < length base = omega (arith, h, length-base h) in
      record {
        deep = omega (arith, v.deep);
        shared = λ i below.
            v.shared i (omega (arith, below))
            ∙ bit-set_bit_other base depth i inside (omega (arith, below))
            ∙ bit-zero_padded addrbytes depth addr i c;
        counted =
            ap (λ p. tsum_of (subtree p (node s l r)))
              (bits_from-step e.addr depth e.depth v.deep
                ∙ ap (λ b. b ∷ bits_from e.addr (depth + 1) (e.depth - (depth + 1)))
                    (v.shared depth (omega arith) ∙ bit-set_bit_same base depth inside))
            ∙ v.counted;
      }

own-IsNamed :
    (addr : List ℕ) (depth s : ℕ) (l r : Node)
    → All (IsNamed depth addr (node s l r)) (own_elem addr depth s)
own-IsNamed addr depth s l r =
    let none_left : depth - depth ≡ 0 = omega arith in
    let here = ap (λ n. tsum_of (subtree (bits_from addr depth n) (node s l r))) none_left in
    if_either (All (IsNamed depth addr (node s l r))) (s == 0) _ _ (λ e. tt)
      (λ e. (record { deep = omega arith; shared = λ i h. refl; counted = here }, tt))

histogram_from_flat :
    (addrbytes depth : ℕ) (addr : List ℕ) (t : Node)
    → height t ≤ 0
    → histogram_from addrbytes depth addr t ≡ []
unfolding histogram_from
histogram_from_flat addrbytes depth addr null h = refl
histogram_from_flat addrbytes depth addr (node s l r) h = absurd (omega (arith, h))

histogram_from-IsNamed :
    (addrbytes depth : ℕ) (addr : List ℕ) (t : Node)
    → IsClear addrbytes depth addr
    → depth + height t ≤ 8 * addrbytes + 1
    → All (IsNamed depth addr t) (histogram_from addrbytes depth addr t)
unfolding histogram_from
histogram_from-IsNamed addrbytes depth addr null c h = tt
histogram_from-IsNamed addrbytes depth addr (node s l r) c h =
    let P = IsNamed depth addr (node s l r) in
    let b = base addrbytes depth addr c in
    let own = own-IsNamed addr depth s l r in
    if_either (All P) (ltb max_histogram_depth depth) _ _ (λ deep. own)
      (λ shallow. elim (dec_lt depth (8 * addrbytes)) [
        | yes room ↦
            let left =
              histogram_from-IsNamed addrbytes (depth + 1) b l
                (base-IsClear addrbytes depth addr c room) (omega (arith, h)) in
            let right =
              histogram_from-IsNamed addrbytes (depth + 1) (set_bit b depth) r
                (set_bit-IsClear addrbytes depth addr c room) (omega (arith, h)) in
            All-append P (own_elem addr depth s ++ _) _
              (All-append P (own_elem addr depth s) _ own
                (All-map _ P _ (left-IsNamed addrbytes depth addr c s l r) left))
              (All-map _ P _ (λ e. right-IsNamed addrbytes depth addr c s l r e room) right)
        | no full ↦
            let flat_l = histogram_from_flat addrbytes (depth + 1) b l (omega (arith, h, full)) in
            let flat_r =
              histogram_from_flat addrbytes (depth + 1) (set_bit b depth) r
                (omega (arith, h, full)) in
            All-append P (own_elem addr depth s ++ _) _
              (All-append P (own_elem addr depth s) _ own (subst (All P) (sym flat_l) tt))
              (subst (All P) (sym flat_r) tt)
      ])

-- Each entry of the histogram is that of a node: the bits of its address, up to its depth, lead
-- from the root to a node that counts as much. No path of the tree is longer than an address.
pub get_histogram-names :
    (addrbytes : ℕ) (root : Node)
    → height root ≤ 8 * addrbytes + 1
    → All
        (λ e. tsum_of (subtree (bits_from e.addr 0 e.depth) root) ≡ e.count)
        (get_histogram addrbytes root)
unfolding get_histogram
get_histogram-names addrbytes root h =
    let start : IsClear addrbytes 0 (replicate addrbytes 0) = record {
      size = length-replicate addrbytes 0;
      clear = λ i h. bit_clear (replicate addrbytes 0) i (get_or-replicate addrbytes (i / 8));
    } in
    All-map (IsNamed 0 (replicate addrbytes 0) root) _ _
      (λ e v. ap (λ n. tsum_of (subtree (bits_from e.addr 0 n) root)) (omega arith) ∙ v.counted)
      (histogram_from-IsNamed addrbytes 0 (replicate addrbytes 0) root start (omega arith))
