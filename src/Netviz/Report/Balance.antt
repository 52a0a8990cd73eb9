-- ===== src/Netviz/Report/Balance.antt =====
-- src/netviz/one_page_report.cpp: how the counts of the report and of its histograms agree.
use tcpflow.Base.{ℕ, ◌≡◌, ap, ◌∙◌, Bool, Option, none, some}
use tcpflow.Base.Word.{add64}
use tcpflow.Netviz.Ports.{increment, total}
use tcpflow.Netviz.Ports.Top.{total-add_count}
use tcpflow.Netviz.Time.{insert_time}
use tcpflow.Netviz.Report.{
  Report, PacketView, IpView, TcpPorts, ingest_packet, ingest_counts, ingest_trees, ingest_portless,
  ingest_tcp,
}

-- The bytes of the report, of its transports and of its time histogram are the same, and those of
-- the two port histograms are the same.
pub record IsBalanced (r : Report) : Type 0 where
  pub transports : total r.transport_counts ≡ r.byte_count
  pub timeline : r.packet_histogram.insert_count ≡ r.byte_count
  pub two_ends : r.src_port_histogram.data_bytes_ingested ≡ r.dst_port_histogram.data_bytes_ingested
  pub by_src : total r.src_port_histogram.port_counts ≡ r.src_port_histogram.data_bytes_ingested
  pub by_dst : total r.dst_port_histogram.port_counts ≡ r.dst_port_histogram.data_bytes_ingested

-- The same while a packet is counted by the report and not yet by the time histogram.
record IsAhead (len : ℕ) (r : Report) : Type 0 where
  transports : total r.transport_counts ≡ r.byte_count
  timeline : add64 r.packet_histogram.insert_count len ≡ r.byte_count
  two_ends : r.src_port_histogram.data_bytes_ingested ≡ r.dst_port_histogram.data_bytes_ingested
  by_src : total r.src_port_histogram.port_counts ≡ r.src_port_histogram.data_bytes_ingested
  by_dst : total r.dst_port_histogram.port_counts ≡ r.dst_port_histogram.data_bytes_ingested

ingest_counts-IsAhead :
    (pi : PacketView) (r : Report) → IsBalanced r → IsAhead pi.len (ingest_counts pi r)
unfolding ingest_counts
ingest_counts-IsAhead pi r v = record {
  transports =
      total-add_count pi.ether_type pi.len r.transport_counts
      ∙ ap (λ n. add64 n pi.len) v.transports;
  timeline = ap (λ n. add64 n pi.len) v.timeline;
  two_ends = v.two_ends;
  by_src = v.by_src;
  by_dst = v.by_dst;
}

ingest_trees-IsAhead :
    (ip : IpView) (len : ℕ) (r : Report) → IsAhead len r → IsAhead len (ingest_trees ip len r)
unfolding ingest_trees
ingest_trees-IsAhead ip len r v = record {
  transports = v.transports;
  timeline = v.timeline;
  two_ends = v.two_ends;
  by_src = v.by_src;
  by_dst = v.by_dst;
}

ingest_portless-IsBalanced :
    (pad : ℕ → ℕ) (pi : PacketView) (r : Report)
    → IsAhead pi.len r
    → IsBalanced (ingest_portless pad pi r)
unfolding ingest_portless insert_time
ingest_portless-IsBalanced pad pi r v = record {
  transports = v.transports;
  timeline = v.timeline;
  two_ends = v.two_ends;
  by_src = v.by_src;
  by_dst = v.by_dst;
}

ingest_tcp-IsBalanced :
    (pad : ℕ → ℕ) (colored : ℕ → Bool) (pi : PacketView) (p : TcpPorts) (r : Report)
    → IsAhead pi.len r
    → IsBalanced (ingest_tcp pad colored pi p r)
unfolding ingest_tcp insert_time increment
ingest_tcp-IsBalanced pad colored pi p r v =
    let grown : ℕ → ℕ = λ n. add64 n pi.len in
    record {
      transports = v.transports;
      timeline = v.timeline;
      two_ends = ap grown v.two_ends;
      by_src = total-add_count p.src pi.len r.src_port_histogram.port_counts ∙ ap grown v.by_src;
      by_dst = total-add_count p.dst pi.len r.dst_port_histogram.port_counts ∙ ap grown v.by_dst;
    }

option_either {ℓ κ μ} :
    {A : Type ℓ} {B : Type κ} (P : B → Type μ) (o : Option A) (y : B) (f : A → B)
    → P y
    → ((a : A) → P (f a))
    → P (elim o [ none ↦ y | some a ↦ f a ])
option_either P none y f h k = h
option_either P (some a) y f h k = k a

-- Whatever the packet, the bytes by transport, and those that the insertions by time counted, stay
-- those of the report, and the bytes by source and by destination port stay the same, modulo 2^64,
-- where they were before.
pub ingest_packet-IsBalanced :
    (pad : ℕ → ℕ) (colored : ℕ → Bool) (pi : PacketView) (r : Report)
    → IsBalanced r
    → IsBalanced (ingest_packet pad colored pi r)
unfolding ingest_packet
ingest_packet-IsBalanced pad colored pi r v =
    let counted = ingest_counts pi r in
    let ahead = ingest_counts-IsAhead pi r v in
    option_either IsBalanced pi.ip _ _ (ingest_portless-IsBalanced pad pi counted ahead) (λ ip.
      let sorted = ingest_trees ip pi.len counted in
      let v' = ingest_trees-IsAhead ip pi.len counted ahead in
      option_either IsBalanced ip.tcp _ _ (ingest_portless-IsBalanced pad pi sorted v')
        (λ p. ingest_tcp-IsBalanced pad colored pi p sorted v'))
