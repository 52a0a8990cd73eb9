-- ===== src/Datalink/Ethernet.antt =====
-- src/datalink.cpp: dl_ethernet on frames with VLAN tags, and on frames that are cut off.
use tcpflow.Base.{
  ℕ, zero, suc, ◌+◌, ◌-◌, ◌*◌, ◌≤◌, ◌<◌, ◌≡◌, sym, ap, ◌∙◌, true, List, [], ◌∷◌, ◌++◌, append_assoc,
  arith, length, length-append, get_or,
}
use tcpflow.Datalink.{packet, overread, is_vlan, is_ip, skip_vlan, dl_ethernet}
use tcpflow.Demux.Segment.{be16}

-- A VLAN tag: its type and its number, byte by byte.
pub record Tag : Type 0 where
  pub type_high : ℕ
  pub type_low : ℕ
  pub tci_high : ℕ
  pub tci_low : ℕ

-- Tags in front of the rest of a frame.
abbrev pub tagged : List Tag → List ℕ → List ℕ
tagged [] rest = rest
tagged (t ∷ ts) rest = t.type_high ∷ t.type_low ∷ t.tci_high ∷ t.tci_low ∷ tagged ts rest

abbrev pub AllVlan : List Tag → Type 0
AllVlan [] = Unit {0}
AllVlan (t ∷ ts) = (is_vlan (t.type_high * 256 + t.type_low) ≡ true) × AllVlan ts

get_or-append :
    (xs ys : List ℕ) (i k : ℕ) → length xs + i ≡ k → get_or (xs ++ ys) k 0 ≡ get_or ys i 0
get_or-append [] ys i k e = let same : k ≡ i = omega (arith, e) in ap (λ j. get_or ys j 0) same
get_or-append (x ∷ xs) ys i zero e = absurd (omega (arith, e))
get_or-append (x ∷ xs) ys i (suc k) e = get_or-append xs ys i k (omega (arith, e))

be16-append : (xs ys : List ℕ) (a b k : ℕ) → length xs ≡ k → be16 (xs ++ a ∷ b ∷ ys) k ≡ a * 256 + b
be16-append xs ys a b k e = omega (
  arith,
  get_or-append xs (a ∷ b ∷ ys) 0 k (omega (arith, e)),
  get_or-append xs (a ∷ b ∷ ys) 1 (k + 1) (omega (arith, e)),
)

length-tagged : (ts : List Tag) (r : List ℕ) → length (tagged ts r) ≡ 4 * length ts + length r
length-tagged [] r = omega arith
length-tagged (t ∷ ts) r = omega (arith, length-tagged ts r)

-- A tag is skipped.
skip_vlan-tag :
    (t : Tag) (fuel : ℕ) (front rest : List ℕ) (skip caplen : ℕ)
    → length front ≡ skip + 12
    → is_vlan (t.type_high * 256 + t.type_low) ≡ true
    → 16 ≤ caplen
    → let p = front ++ tagged (t ∷ []) rest in
      skip_vlan (suc fuel) p skip caplen ≡ skip_vlan fuel p (skip + 4) (caplen - 4)
unfolding skip_vlan
skip_vlan-tag t fuel front rest skip caplen f v c = ground (
  arith,
  be16-append front (t.tci_high ∷ t.tci_low ∷ rest) t.type_high t.type_low (skip + 12) f,
  length-append front (tagged (t ∷ []) rest),
)

skip_vlan-tagged :
    (ts : List Tag) (fuel : ℕ) (front payload : List ℕ) (high low skip caplen : ℕ)
    → length front ≡ skip + 12
    → AllVlan ts
    → is_ip (high * 256 + low) ≡ true
    → length ts < fuel
    → caplen ≡ length payload + 4 * length ts + 14
    → skip_vlan fuel (front ++ tagged ts (high ∷ low ∷ payload)) skip caplen
      ≡ packet (skip + 4 * length ts + 14) (length payload)
unfolding skip_vlan
skip_vlan-tagged ts zero front payload high low skip caplen f v ip l c = absurd (omega (arith, l))
skip_vlan-tagged [] (suc fuel) front payload high low skip caplen f v ip l c = ground (
  arith,
  be16-append front payload high low (skip + 12) f,
  length-append front (high ∷ low ∷ payload),
)
skip_vlan-tagged (t ∷ ts) (suc fuel) front payload high low skip caplen f v ip l c =
    let rest = tagged ts (high ∷ low ∷ payload) in
    let tag = tagged (t ∷ []) [] in
    skip_vlan-tag t fuel front rest skip caplen f v.0 (omega (arith, c))
    ∙ ap (λ p. skip_vlan fuel p (skip + 4) (caplen - 4)) (sym (append_assoc front tag rest))
    ∙ skip_vlan-tagged ts fuel (front ++ tag) payload high low (skip + 4) (caplen - 4)
        (omega (arith, length-append front tag, f)) v.1 ip (omega (arith, l)) (omega (arith, c))
    ∙ ap (λ k. packet k (length payload)) {x = skip + 4 + 4 * length ts + 14}
        {y = skip + 4 * length (t ∷ ts) + 14} (omega arith)

-- A frame of 12 bytes of addresses, any VLAN tags, the type of IPv4 or IPv6 and a payload: all of
-- the payload, and nothing else, is passed on.
pub dl_ethernet-tagged :
    (addresses payload : List ℕ) (ts : List Tag) (high low : ℕ)
    → length addresses ≡ 12
    → AllVlan ts
    → is_ip (high * 256 + low) ≡ true
    → dl_ethernet (addresses ++ tagged ts (high ∷ low ∷ payload))
      ≡ packet (4 * length ts + 14) (length payload)
unfolding dl_ethernet
dl_ethernet-tagged addresses payload ts high low a v ip =
    let p = addresses ++ tagged ts (high ∷ low ∷ payload) in
    let n : length p ≡ length payload + 4 * length ts + 14 = omega (
      arith,
      a,
      length-append addresses (tagged ts (high ∷ low ∷ payload)),
      length-tagged ts (high ∷ low ∷ payload),
    ) in
    let run =
      skip_vlan-tagged ts (length p) addresses payload high low 0 (length p) (omega (arith, a)) v ip
        (omega (arith, n)) n in
    ground (arith, run, n)

skip_vlan_short :
    (fuel caplen : ℕ) (p : List ℕ) → 0 < fuel → length p < 14 → skip_vlan fuel p 0 caplen ≡ overread
unfolding skip_vlan
skip_vlan_short zero caplen p n h = absurd (omega (arith, n))
skip_vlan_short (suc fuel) caplen p n h = ground arith

-- A frame cut off behind its addresses, with 12 or 13 bytes captured, is read behind the capture.
pub dl_ethernet_cut_off : (p : List ℕ) → 12 ≤ length p → length p < 14 → dl_ethernet p ≡ overread
unfolding dl_ethernet skip_vlan
dl_ethernet_cut_off p low high =
    ground (arith, skip_vlan_short (length p) (length p) p (omega (arith, low)) high)
