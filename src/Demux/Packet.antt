-- ===== src/Demux/Packet.antt =====
-- src/tcpdemux.cpp: process_ip4, process_ip6 and process_pkt.
pub mod Lengths
use tcpflow.Base.{
  ℕ, zero, suc, ◌+◌, ◌-◌, ◌*◌, ◌/◌, ◌%◌, ◌^◌, ◌≤◌, ◌<◌, min, max, ◌≡◌, refl, sym, ap, ap₂, subst,
  ◌∙◌, fun_ext, ◌≢◌, ◌↔◌, ◌⊎◌, inl, inr, Bool, true, false, not, ◌&&◌, ◌||◌, Option, none, some,
  List, [], ◌∷◌, ◌++◌, map, append_assoc, append-nil, arith, dec_lt, dec_le, ℕ_discrete, length,
  get_elem?, set, length-append, length-set, get_elem?-set_self, get_elem?-set_ne, get_or, take,
  drop, replicate, take-append-drop, length-take, length-drop, length-replicate, length-map, ltb,
  leb, ◌==◌, if◌then◌else◌, ltb→lt, lt→ltb, leb→le, ==_iff, tests, Bool-cases, Option-cases,
  if_either, All, All-map, All-append,
}
use tcpflow.Base.Word.{u16, u32, u64, sub32}
use tcpflow.Flow.{Flow, FlowAddr, IpAddr, PacketInfo, TimeVal}
use tcpflow.Tcpip.State.{ReconSet, Tcpip}
use tcpflow.Demux.State.{
  Demux, Settings, M, Stop, undefined, Outcome, done, stopped, ◌>>=◌, ◌>>◌, return, stop, get_state,
  modify, when, emit, load, store,
}
use tcpflow.Demux.Flows.{remove_flow}
use tcpflow.Demux.Segment.{byte, be16, read_bytes}
use tcpflow.Demux.Tcp.{Verdict, processed, not_processed, failed, process_tcp}

abbrev pub unprocessed : Verdict → Bool
unprocessed processed = false
unprocessed not_processed = true
unprocessed failed = true

abbrev pub ip4_size : ℕ
ip4_size = 20

abbrev pub ip6_size : ℕ
ip6_size = 40

abbrev pub ipproto_tcp : ℕ
ipproto_tcp = 6

-- `ipaddr(const in_addr_t &)` and `ipaddr(const uint8_t[16])`.
unfoldable pub ip4_addr : List ℕ → ℕ → IpAddr
ip4_addr p i = take 4 (drop i p) ++ replicate 12 0

unfoldable pub ip6_addr : List ℕ → ℕ → IpAddr
ip6_addr p i = take 16 (drop i p)

-- What process_ip4 passes on: where the payload begins and its length, a uint16_t taken from the
-- captured length. `none` is the return of -1.
unfoldable pub ip4_payload : List ℕ → Option (ℕ × ℕ)
ip4_payload p =
    let ip_len = be16 p 2 in
    let header_len = byte p 0 % 16 * 4 in
    if ltb (length p) ip4_size
    then none
    else if not (byte p 9 == ipproto_tcp)
    then none
    else if not (be16 p 6 % 8192 == 0)
    then none
    else if ltb ip_len header_len
    then none
    else some (header_len, (length p + (u64 - header_len)) % u16)

-- The same of process_ip6, from the length in the header.
unfoldable pub ip6_payload : List ℕ → Option (ℕ × ℕ)
ip6_payload p =
    if ltb (length p) ip6_size
    then none
    else if not (byte p 6 == ipproto_tcp)
    then none
    else some (ip6_size, be16 p 4)

module _ {S : Type 0} (R : ReconSet S) (cfg : Settings) where
  unfoldable pub process_ip4 : PacketInfo → M S Verdict
  process_ip4 pi = elim (ip4_payload pi.payload) [
    | none ↦ return failed
    | some (off, n) ↦
        process_tcp R cfg (ip4_addr pi.payload 12) (ip4_addr pi.payload 16) cfg.naming.af_inet
          (drop off pi.payload) n pi
  ]

  unfoldable pub process_ip6 : PacketInfo → M S Verdict
  process_ip6 pi = elim (ip6_payload pi.payload) [
    | none ↦ return failed
    | some (off, n) ↦
        process_tcp R cfg (ip6_addr pi.payload 8) (ip6_addr pi.payload 24) cfg.naming.af_inet6
          (drop off pi.payload) n pi
  ]

-- `to_close`: the flows whose last packet is more than the timeout ago. Its pointers to the address
-- within a flow are the pointers to the flow; each flow of the map is read.
unfoldable pub expired : {S : Type 0} → ℕ → TimeVal → List (FlowAddr × ℕ) → M S (List ℕ)
expired timeout now [] = return []
expired timeout now ((a, p) ∷ m) = do
  t ← load p
  rest ← expired timeout now m
  return (if ltb timeout (sub32 (now.sec % u32) (t.myflow.tlast.sec % u32)) then p ∷ rest else rest)

module _ {S : Type 0} (cfg : Settings) where
  -- The address is read through the pointer when its turn comes, and by remove_flow before the flow
  -- is deleted.
  unfoldable pub remove_flows : List ℕ → M S (Unit {0})
  remove_flows [] = return tt
  remove_flows (p ∷ ps) = do t ← load p; remove_flow cfg t.myflow.addr; remove_flows ps

  -- Close what has timed out: first the list, then the removals.
  unfoldable pub close_expired : TimeVal → M S (Unit {0})
  close_expired now = do
    d ← get_state
    when (ltb 0 cfg.tcp_timeout)
        (do gone ← expired cfg.tcp_timeout now d.flow_map; remove_flows gone)

module _ {S : Type 0} (R : ReconSet S) (cfg : Settings) where
  -- process_pkt, given the version of the packet; the packets that it writes with `pwriter` are
  -- those for which the first part of the result is true.
  unfoldable pub process_pkt : (version : ℕ) → PacketInfo → M S (Bool × Verdict)
  process_pkt version pi = do
    r ←
        if version == 4
        then process_ip4 R cfg pi
        else if version == 6
        then process_ip6 R cfg pi
        else return not_processed
    close_expired cfg pi.ts
    return (cfg.has_pwriter && unprocessed r, r)
