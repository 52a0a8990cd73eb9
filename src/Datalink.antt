-- ===== src/Datalink.antt =====
-- src/datalink.cpp: from a captured frame to the bytes of the IP packet in it. The layout and the
-- numbers of the frames are those of the standards: an Ethernet header of 14 bytes with its type
-- at 12, and a Linux cooked header of 16 with its protocol at 14.
pub mod Ethernet
pub mod Cooked
use tcpflow.Base.{
  ℕ, zero, suc, ◌+◌, ◌-◌, ◌*◌, ◌/◌, ◌%◌, ◌^◌, ◌≤◌, ◌<◌, min, max, ◌≡◌, refl, sym, ap, ap₂, subst,
  ◌∙◌, fun_ext, ◌≢◌, ◌↔◌, ◌⊎◌, inl, inr, Bool, true, false, not, ◌&&◌, ◌||◌, Option, none, some,
  List, [], ◌∷◌, ◌++◌, map, append_assoc, append-nil, arith, dec_lt, dec_le, ℕ_discrete, length,
  get_elem?, set, length-append, length-set, get_elem?-set_self, get_elem?-set_ne, get_or, take,
  drop, replicate, take-append-drop, length-take, length-drop, length-replicate, length-map, ltb,
  leb, ◌==◌, if◌then◌else◌, ltb→lt, lt→ltb, leb→le, ==_iff, tests, Bool-cases, Option-cases,
}
use tcpflow.Demux.Segment.{byte, be16}

-- What a handler makes of a frame: the packet from `offset` on, nothing, or a read behind the
-- captured bytes; `unfinished` is the end of a loop's fuel.
pub data Frame : Type 0 where
  packet : (offset caplen : ℕ) → Frame
  dropped overread unfinished : Frame

-- A read of `n` bytes at `offset`.
abbrev pub reading : List ℕ → (offset n : ℕ) → Frame → Frame
reading p offset n f = if leb (offset + n) (length p) then f else overread

-- `dl_null`: the first byte is read before the length is tested.
unfoldable pub dl_null : (af_inet af_inet6 : ℕ) → List ℕ → Frame
dl_null af_inet af_inet6 p =
    let family = byte p 0 in
    reading p 0 1 (
      if ltb (length p) 4
      then dropped
      else if not (family == af_inet) && not (family == af_inet6)
      then dropped
      else packet 4 (length p - 4))

unfoldable pub dl_raw : List ℕ → Frame
dl_raw p = packet 0 (length p)

abbrev pub ether_type_offset : ℕ
ether_type_offset = 12

abbrev pub ether_header_size : ℕ
ether_header_size = 14

-- The types of VLAN tags: 802.1Q, the old QinQ and 802.1ad.
abbrev pub is_vlan : ℕ → Bool
is_vlan t = t == 33024 || (t == 37120 || t == 34984)

abbrev pub is_ip : ℕ → Bool
is_ip t = t == 2048 || t == 34525

-- The test and the branch at the end of `dl_ethernet`, `skip` bytes of tags into the frame.
unfoldable pub ether_payload : List ℕ → (skip caplen : ℕ) → Frame
ether_payload p skip caplen =
    if ltb caplen ether_header_size
    then dropped
    else if is_ip (be16 p (skip + ether_type_offset))
    then packet (skip + ether_header_size) (caplen - ether_header_size)
    else dropped

-- The loop over VLAN tags; each takes 4 from `caplen`, so the length of the frame is enough fuel.
unfoldable pub skip_vlan : ℕ → List ℕ → (skip caplen : ℕ) → Frame
unfolding ether_payload
skip_vlan zero p skip caplen = unfinished
skip_vlan (suc fuel) p skip caplen =
    let rest = skip_vlan fuel p (skip + 4) (caplen - 4) in
    reading p (skip + ether_type_offset) 2 (
      if is_vlan (be16 p (skip + ether_type_offset))
      then (if ltb (caplen - 4) ether_type_offset then dropped else rest)
      else ether_payload p skip caplen)

unfoldable pub dl_ethernet : List ℕ → Frame
unfolding skip_vlan
dl_ethernet p =
    if ltb (length p) ether_type_offset then dropped else skip_vlan (length p) p 0 (length p)

unfoldable pub dl_ppp : List ℕ → Frame
dl_ppp p = if ltb (length p) 4 then dropped else packet 4 (length p - 4)

abbrev pub sll_header_size : ℕ
sll_header_size = 16

abbrev pub is_mpls : ℕ → Bool
is_mpls t = t == 34887

-- The loop over MPLS labels, up to the one marked as the last; `mpls` is their size so far.
unfoldable pub unwind_mpls : ℕ → List ℕ → (mpls caplen : ℕ) → Frame
unwind_mpls zero p mpls caplen = unfinished
unwind_mpls (suc fuel) p mpls caplen =
    let rest = unwind_mpls fuel p (mpls + 4) (caplen - 4) in
    let last = sll_header_size + (mpls + 4) - 2 in
    if ltb caplen (sll_header_size + mpls + 4)
    then dropped
    else reading p last 1 (
        if byte p last % 2 == 0
        then rest
        else packet (sll_header_size + (mpls + 4)) (caplen - 4 - sll_header_size))

unfoldable pub dl_linux_sll : List ℕ → Frame
unfolding unwind_mpls
dl_linux_sll p =
    if ltb (length p) sll_header_size
    then dropped
    else if is_mpls (be16 p 14)
    then unwind_mpls (length p) p 0 (length p)
    else packet sll_header_size (length p - sll_header_size)

pub data Handler : Type 0 where
  null raw ethernet ppp linux_sll ieee802_11_radio prism : Handler

-- The table of handlers by the link types of libpcap; the wireless ones are a build option.
abbrev pub handlers : (use_wifi : Bool) → List (Handler × ℕ)
handlers use_wifi =
    (null, 0)
    ∷ (raw, 12)
    ∷ (raw, 14)
    ∷ (raw, 101)
    ∷ (ethernet, 1)
    ∷ (ethernet, 6)
    ∷ (ppp, 9)
    ∷ (linux_sll, 113)
    ∷ (if use_wifi
        then (ieee802_11_radio, 105) ∷ (ieee802_11_radio, 127) ∷ (prism, 119) ∷ []
        else [])

unfoldable pub lookup_handler : ℕ → List (Handler × ℕ) → Option Handler
lookup_handler datalink_type [] = none
lookup_handler datalink_type ((h, t) ∷ l) =
    let rest = lookup_handler datalink_type l in if t == datalink_type then some h else rest

-- `find_handler`; `none` ends the program.
unfoldable pub find_handler : (use_wifi : Bool) → ℕ → Option Handler
unfolding lookup_handler
find_handler use_wifi datalink_type = lookup_handler datalink_type (handlers use_wifi)
