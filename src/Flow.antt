-- ===== src/Flow.antt =====
-- src/tcpip.h: addresses, time stamps and the description of a flow.
pub mod Addr
pub mod Time
pub use Addr.{IpAddr, FlowAddr, flow_addr_eq}
unfoldable pub use Addr.{same_addr, reverse_addr}
pub use Time.{TimeVal}
use tcpflow.Base.{
  ℕ, zero, suc, ◌+◌, ◌-◌, ◌*◌, ◌/◌, ◌%◌, ◌^◌, ◌≤◌, ◌<◌, min, max, ◌≡◌, refl, sym, ap, ap₂, subst,
  ◌∙◌, fun_ext, ◌≢◌, ◌↔◌, ◌⊎◌, inl, inr, Bool, true, false, not, ◌&&◌, ◌||◌, Option, none, some,
  List, [], ◌∷◌, ◌++◌, map, append_assoc, append-nil, arith, dec_lt, dec_le, ℕ_discrete, length,
  get_elem?, set, length-append, length-set, get_elem?-set_self, get_elem?-set_ne, get_or, take,
  drop, replicate, take-append-drop, length-take, length-drop, length-replicate, length-map, ltb,
  leb, ◌==◌, if◌then◌else◌, ltb→lt, lt→ltb, leb→le, ==_iff, tests, Bool-cases, Option-cases,
}
use tcpflow.Base.Int.{ℤ}

-- What the demultiplexer and its callers are given of one captured packet: the time stamp, the
-- lengths of the pcap header, the VLAN tag and the two link addresses.
pub record PacketInfo : Type 0 where
  pub ts : TimeVal
  pub caplen : ℕ
  pub len : ℕ
  pub vlan : ℤ
  pub ether_dhost : List ℕ
  pub ether_shost : List ℕ
  pub payload : List ℕ

-- `class flow`, with its base class `flow_addr` as the field `addr`.
pub record Flow : Type 0 where
  pub addr : FlowAddr
  pub id : ℕ
  pub vlan : ℤ
  pub mac_daddr : List ℕ
  pub mac_saddr : List ℕ
  pub tstart : TimeVal
  pub tlast : TimeVal
  pub len : ℕ
  pub caplen : ℕ
  pub packet_count : ℕ
  pub session_id : ℕ

-- The constructor; `pcap_hdr` is never null where the demultiplexer calls it.
unfoldable pub new_flow : FlowAddr → ℕ → PacketInfo → Flow
new_flow a id pi = record {
  addr = a;
  id = id;
  vlan = pi.vlan;
  mac_daddr = pi.ether_dhost;
  mac_saddr = pi.ether_shost;
  tstart = pi.ts;
  tlast = pi.ts;
  len = 0;
  caplen = 0;
  packet_count = 0;
  session_id = 0;
}
