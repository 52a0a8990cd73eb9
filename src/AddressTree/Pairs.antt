-- ===== src/AddressTree/Pairs.antt =====
-- src/iptree.h, ip2tree: pairs of addresses, interleaved bit by bit.
pub mod Apart
use tcpflow.Base.{
  ℕ, zero, suc, ◌+◌, ◌-◌, ◌*◌, ◌/◌, ◌%◌, ◌^◌, ◌≤◌, ◌<◌, min, max, ◌≡◌, refl, sym, ap, ap₂, subst,
  ◌∙◌, fun_ext, ◌≢◌, ◌↔◌, ◌⊎◌, inl, inr, Bool, true, false, not, ◌&&◌, ◌||◌, Option, none, some,
  List, [], ◌∷◌, ◌++◌, map, append_assoc, append-nil, arith, dec_lt, dec_le, ℕ_discrete, length,
  get_elem?, set, length-append, length-set, get_elem?-set_self, get_elem?-set_ne, get_or, take,
  drop, replicate, take-append-drop, length-take, length-drop, length-replicate, length-map, ltb,
  leb, ◌==◌, if◌then◌else◌, ltb→lt, lt→ltb, leb→le, ==_iff, tests, Bool-cases, Option-cases,
  if_either, All, All-map, All-append,
}
use tcpflow.AddressTree.{Iptree, bit, add}
use tcpflow.AddressTree.Bits.{set_bit}

-- The bytes of a pair, and of an address.
abbrev pub pair_bytes : ℕ
pair_bytes = 32

abbrev pub single_bytes : ℕ
single_bytes = 16

unfoldable pub set_if : Bool → List ℕ → ℕ → List ℕ
unfolding set_bit
set_if b addr i = if b then set_bit addr i else addr

-- The loop of `add_pair`: the first `n` bits of both addresses.
unfoldable pub interleave : (addr1 addr2 : List ℕ) → (n : ℕ) → List ℕ
unfolding set_if
interleave addr1 addr2 zero = replicate pair_bytes 0
interleave addr1 addr2 (suc n) =
    let even = set_if (bit addr1 n) (interleave addr1 addr2 n) (2 * n) in
    set_if (bit addr2 n) even (2 * n + 1)

unfoldable pub add_pair : (addr1 addr2 : List ℕ) → (addrlen val : ℕ) → Iptree → Iptree
unfolding interleave add
add_pair addr1 addr2 addrlen val t =
    add pair_bytes (take (2 * addrlen) (interleave addr1 addr2 (8 * addrlen))) val t

-- The loop of `un_pair` for one of the two addresses: bit `2 * i + odd` becomes bit `i`.
unfoldable pub every_other : (odd : ℕ) → List ℕ → (n : ℕ) → List ℕ
unfolding set_if
every_other odd addr zero = replicate single_bytes 0
every_other odd addr (suc n) = set_if (bit addr (2 * n + odd)) (every_other odd addr n) n

pub record Pair : Type 0 where
  pub addr1 : List ℕ
  pub addr2 : List ℕ
  pub depth1 : ℕ
  pub depth2 : ℕ

-- `un_pair` into two cleared addresses.
unfoldable pub un_pair : List ℕ → (depth : ℕ) → Pair
unfolding every_other
un_pair addr depth =
    let n = length addr * 8 / 2 in
    record {
      addr1 = every_other 0 addr n;
      addr2 = every_other 1 addr n;
      depth1 = (depth + 1) / 2;
      depth2 = depth / 2;
    }
