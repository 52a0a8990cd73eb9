-- ===== src/Netviz/Report.antt =====
-- src/netviz/one_page_report.cpp: what a packet adds to the report.
pub mod Balance
use tcpflow.Base.{
  ℕ, zero, suc, ◌+◌, ◌-◌, ◌*◌, ◌/◌, ◌%◌, ◌^◌, ◌≤◌, ◌<◌, min, max, ◌≡◌, refl, sym, ap, ap₂, subst,
  ◌∙◌, fun_ext, ◌≢◌, ◌↔◌, ◌⊎◌, inl, inr, Bool, true, false, not, ◌&&◌, ◌||◌, Option, none, some,
  List, [], ◌∷◌, ◌++◌, map, append_assoc, append-nil, arith, dec_lt, dec_le, ℕ_discrete, length,
  get_elem?, set, length-append, length-set, get_elem?-set_self, get_elem?-set_ne, get_or, take,
  drop, replicate, take-append-drop, length-take, length-drop, length-replicate, length-map, ltb,
  leb, ◌==◌, if◌then◌else◌, ltb→lt, lt→ltb, leb→le, ==_iff, tests, Bool-cases, Option-cases,
  if_either, All, All-map, All-append,
}
use tcpflow.Base.Maps.{find, insert}
use tcpflow.Base.Word.{add64, u32, u64}
use tcpflow.Flow.{TimeVal}
use tcpflow.AddressTree.{Iptree, add, new_tree}
use tcpflow.Netviz.Ports.{PortHistogram, new_port_histogram, increment, add_count, total}
use tcpflow.Netviz.Time.{TimeHistogram, new_time_histogram, insert_time, earliest, latest, epoch}

-- The ports of a TCP segment.
pub record TcpPorts : Type 0 where
  pub src : ℕ
  pub dst : ℕ

-- What be13::packet_info tells of an IP packet: its addresses, and its ports where it is TCP.
pub record IpView : Type 0 where
  pub src_addr : List ℕ
  pub dst_addr : List ℕ
  pub tcp : Option TcpPorts

-- What be13::packet_info tells of a packet; `ip` is `none` where neither is_ip4 nor is_ip6 holds.
pub record PacketView : Type 0 where
  pub ts : TimeVal
  pub len : ℕ
  pub ether_type : ℕ
  pub ip : Option IpView

pub record Report : Type 0 where
  pub packet_count : ℕ
  pub byte_count : ℕ
  pub earliest_ts : TimeVal
  pub latest_ts : TimeVal
  pub transport_counts : List (ℕ × ℕ)
  pub ports_in_time_histogram : List (ℕ × Bool)
  pub packet_histogram : TimeHistogram
  pub src_port_histogram : PortHistogram
  pub dst_port_histogram : PortHistogram
  pub src_tree : Iptree
  pub dst_tree : Iptree

-- The bytes of an address in the trees.
abbrev pub addr_bytes : ℕ
addr_bytes = 16

unfoldable pub new_report : (max_histogram_size : ℕ) → Report
unfolding new_time_histogram new_port_histogram new_tree
new_report max_histogram_size = record {
  packet_count = 0;
  byte_count = 0;
  earliest_ts = epoch;
  latest_ts = epoch;
  transport_counts = [];
  ports_in_time_histogram = [];
  packet_histogram = new_time_histogram;
  src_port_histogram = new_port_histogram;
  dst_port_histogram = new_port_histogram;
  src_tree = new_tree addr_bytes max_histogram_size;
  dst_tree = new_tree addr_bytes max_histogram_size;
}

-- The port that the time histogram counts a segment under: `colored` is whether port_colormap has
-- a port.
unfoldable pub histogram_port : (colored : ℕ → Bool) → (packet_count : ℕ) → TcpPorts → ℕ
histogram_port colored packet_count p =
    if colored p.dst && not (colored p.src)
    then p.dst
    else if colored p.src && (colored p.dst && packet_count % 2 == 0)
    then p.dst
    else p.src

-- The counts of any packet.
unfoldable pub ingest_counts : PacketView → Report → Report
unfolding add_count
ingest_counts pi r = record r {
  earliest_ts = earliest pi.ts r.earliest_ts;
  latest_ts = latest pi.ts r.latest_ts;
  packet_count = add64 r.packet_count 1;
  byte_count = add64 r.byte_count pi.len;
  transport_counts = add_count pi.ether_type pi.len r.transport_counts;
}

unfoldable pub ingest_trees : IpView → (len : ℕ) → Report → Report
unfolding add
ingest_trees ip len r = record r {
  src_tree = add addr_bytes ip.src_addr len r.src_tree;
  dst_tree = add addr_bytes ip.dst_addr len r.dst_tree;
}

unfoldable pub ingest_portless : (pad : ℕ → ℕ) → PacketView → Report → Report
unfolding insert_time
ingest_portless pad pi r = record r {
  packet_histogram = insert_time pad pi.ts 0 pi.len true r.packet_histogram;
}

unfoldable pub ingest_tcp :
    (pad : ℕ → ℕ) → (colored : ℕ → Bool) → PacketView → TcpPorts → Report → Report
unfolding histogram_port insert_time increment
ingest_tcp pad colored pi p r =
    let port = histogram_port colored r.packet_count p in
    record r {
      ports_in_time_histogram = insert ◌==◌ port true r.ports_in_time_histogram;
      packet_histogram = insert_time pad pi.ts port pi.len false r.packet_histogram;
      src_port_histogram = increment p.src pi.len r.src_port_histogram;
      dst_port_histogram = increment p.dst pi.len r.dst_port_histogram;
    }

-- `ingest_packet`.
unfoldable pub ingest_packet : (pad : ℕ → ℕ) → (colored : ℕ → Bool) → PacketView → Report → Report
unfolding ingest_counts ingest_trees ingest_portless ingest_tcp
ingest_packet pad colored pi r =
    let counted = ingest_counts pi r in
    elim pi.ip [
      | none ↦ ingest_portless pad pi counted
      | some ip ↦
          let sorted = ingest_trees ip pi.len counted in
          elim ip.tcp [
            | none ↦ ingest_portless pad pi sorted
            | some p ↦ ingest_tcp pad colored pi p sorted
          ]
    ]
