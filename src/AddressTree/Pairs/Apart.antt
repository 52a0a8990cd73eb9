-- ===== src/AddressTree/Pairs/Apart.antt =====
-- src/iptree.h, ip2tree: taking an interleaved pair apart.
use tcpflow.Base.{
  ℕ, zero, suc, ◌+◌, ◌*◌, ◌/◌, ◌≤◌, ◌<◌, ◌≡◌, refl, sym, ap, subst, ◌∙◌, ◌≢◌, Bool, true, false,
  List, arith, ℕ_discrete, length, replicate, length-replicate,
}
use tcpflow.AddressTree.{bit}
use tcpflow.AddressTree.Bits.{bit-set_bit_same, bit-set_bit_other, length-set_bit}
use tcpflow.AddressTree.Names.{bit_clear, get_or-replicate}
use tcpflow.AddressTree.Pairs.{pair_bytes, single_bytes, set_if, interleave, every_other, un_pair}

length-set_if : (b : Bool) (addr : List ℕ) (i : ℕ) → length (set_if b addr i) ≡ length addr
unfolding set_if
length-set_if true addr i = length-set_bit addr i
length-set_if false addr i = refl

bit-set_if_same :
    (b : Bool) (addr : List ℕ) (i : ℕ)
    → i / 8 < length addr
    → bit addr i ≡ false
    → bit (set_if b addr i) i ≡ b
unfolding set_if
bit-set_if_same true addr i h e = bit-set_bit_same addr i h
bit-set_if_same false addr i h e = e

bit-set_if_other :
    (b : Bool) (addr : List ℕ) (i j : ℕ)
    → i / 8 < length addr
    → i ≢ j
    → bit (set_if b addr i) j ≡ bit addr j
unfolding set_if
bit-set_if_other true addr i j h ne = bit-set_bit_other addr i j h ne
bit-set_if_other false addr i j h ne = refl

bit-zeros : (n i : ℕ) → bit (replicate n 0) i ≡ false
bit-zeros n i = bit_clear (replicate n 0) i (get_or-replicate n (i / 8))

-- The pair so far: the bits below `2 * n` are those of the two addresses, and the others are clear.
record IsPaired (addr1 addr2 : List ℕ) (n : ℕ) (addr : List ℕ) : Type 0 where
  size : length addr ≡ pair_bytes
  evens : (i : ℕ) → i < n → bit addr (2 * i) ≡ bit addr1 i
  odds : (i : ℕ) → i < n → bit addr (2 * i + 1) ≡ bit addr2 i
  clear : (j : ℕ) → 2 * n ≤ j → bit addr j ≡ false

interleave-IsPaired :
    (addr1 addr2 : List ℕ) (n : ℕ) → n ≤ 128 → IsPaired addr1 addr2 n (interleave addr1 addr2 n)
unfolding interleave
interleave-IsPaired addr1 addr2 zero h = record {
  size = length-replicate {A = ℕ} pair_bytes 0;
  evens = λ i below. absurd (omega (arith, below));
  odds = λ i below. absurd (omega (arith, below));
  clear = λ j above. bit-zeros pair_bytes j;
}
interleave-IsPaired addr1 addr2 (suc n) h =
    let old = interleave addr1 addr2 n in
    let v = interleave-IsPaired addr1 addr2 n (omega arith) in
    let even = set_if (bit addr1 n) old (2 * n) in
    let new = set_if (bit addr2 n) even (2 * n + 1) in
    let room : 2 * n / 8 < length old = omega (arith, v.size, h) in
    let room' : (2 * n + 1) / 8 < length even =
      omega (arith, length-set_if (bit addr1 n) old (2 * n), v.size, h) in
    let kept : (j : ℕ)
        → 2 * n ≢ j
        → 2 * n + 1 ≢ j
        → bit (set_if (bit addr2 n) even (2 * n + 1)) j ≡ bit old j =
      λ j e o.
        bit-set_if_other (bit addr2 n) even (2 * n + 1) j room' o
        ∙ bit-set_if_other (bit addr1 n) old (2 * n) j room e in
    record {
      size =
          length-set_if (bit addr2 n) even (2 * n + 1)
          ∙ length-set_if (bit addr1 n) old (2 * n)
          ∙ v.size;
      evens = λ i below. elim (ℕ_discrete i n) [
        | yes e ↦
            subst (λ m. bit new (2 * m) ≡ bit addr1 m) (sym e)
              (bit-set_if_other (bit addr2 n) even (2 * n + 1) (2 * n) room' (omega arith)
                ∙ bit-set_if_same (bit addr1 n) old (2 * n) room (v.clear (2 * n) (omega arith)))
        | no ne ↦
            kept (2 * i) (omega (arith, ne)) (omega arith) ∙ v.evens i (omega (arith, below, ne))
      ];
      odds = λ i below. elim (ℕ_discrete i n) [
        | yes e ↦
            subst (λ m. bit new (2 * m + 1) ≡ bit addr2 m) (sym e)
              (bit-set_if_same (bit addr2 n) even (2 * n + 1) room' (
                bit-set_if_other (bit addr1 n) old (2 * n) (2 * n + 1) room (omega arith)
                ∙ v.clear (2 * n + 1) (omega arith)))
        | no ne ↦
            kept (2 * i + 1) (omega arith) (omega (arith, ne)) ∙ v.odds i (omega (arith, below, ne))
      ];
      clear = λ j above.
          kept j (omega (arith, above)) (omega (arith, above)) ∙ v.clear j (omega (arith, above));
    }

-- One address so far.
record IsPicked (odd : ℕ) (addr : List ℕ) (n : ℕ) (out : List ℕ) : Type 0 where
  size : length out ≡ single_bytes
  picked : (i : ℕ) → i < n → bit out i ≡ bit addr (2 * i + odd)
  clear : (j : ℕ) → n ≤ j → bit out j ≡ false

every_other-IsPicked :
    (odd : ℕ) (addr : List ℕ) (n : ℕ) → n ≤ 128 → IsPicked odd addr n (every_other odd addr n)
unfolding every_other
every_other-IsPicked odd addr zero h = record {
  size = length-replicate {A = ℕ} single_bytes 0;
  picked = λ i below. absurd (omega (arith, below));
  clear = λ j above. bit-zeros single_bytes j;
}
every_other-IsPicked odd addr (suc n) h =
    let old = every_other odd addr n in
    let b = bit addr (2 * n + odd) in
    let v = every_other-IsPicked odd addr n (omega arith) in
    let room : n / 8 < length old = omega (arith, v.size, h) in
    record {
      size = length-set_if b old n ∙ v.size;
      picked = λ i below. elim (ℕ_discrete i n) [
        | yes e ↦
            subst (λ m. bit (set_if b old n) m ≡ bit addr (2 * m + odd)) (sym e)
              (bit-set_if_same b old n room (v.clear n (omega arith)))
        | no ne ↦
            bit-set_if_other b old n i room (λ d. ne (sym d))
            ∙ v.picked i (omega (arith, below, ne))
      ];
      clear = λ j above.
          bit-set_if_other b old n j room (omega (arith, above)) ∙ v.clear j (omega (arith, above));
    }

-- A pair of addresses of up to 16 bytes that was interleaved and is taken apart again has the same
-- bits, and a depth of the whole pair is the whole of each address.
pub un_pair-interleave :
    (addr1 addr2 : List ℕ) (addrlen : ℕ)
    → addrlen ≤ 16
    → let p = un_pair (interleave addr1 addr2 (8 * addrlen)) (2 * (8 * addrlen)) in
      ((i : ℕ) → i < 8 * addrlen → bit p.addr1 i ≡ bit addr1 i)
      × ((i : ℕ) → i < 8 * addrlen → bit p.addr2 i ≡ bit addr2 i)
      × (p.depth1 ≡ 8 * addrlen)
      × (p.depth2 ≡ 8 * addrlen)
unfolding un_pair
un_pair-interleave addr1 addr2 addrlen h =
    let whole = interleave addr1 addr2 (8 * addrlen) in
    let v = interleave-IsPaired addr1 addr2 (8 * addrlen) (omega arith) in
    let n = length whole * 8 / 2 in
    let size : n ≡ 128 = omega (arith, v.size) in
    let first = every_other-IsPicked 0 whole n (omega (arith, size)) in
    let second = every_other-IsPicked 1 whole n (omega (arith, size)) in
    let even : (i : ℕ) → 2 * i + 0 ≡ 2 * i = λ i. omega arith in
    (
      λ i below.
          first.picked i (omega (arith, below, size, h))
          ∙ ap (bit whole) (even i)
          ∙ v.evens i below,
      λ i below. second.picked i (omega (arith, below, size, h)) ∙ v.odds i below,
      omega arith,
      omega arith,
    )
