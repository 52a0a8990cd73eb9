-- ===== src/Demux/Tcp.antt =====
-- src/tcpdemux.cpp: tcpdemux::process_tcp, in the order of its parts, with tcpip::print_packet and
-- the part of tcpip::store_packet that opens the file.
use tcpflow.Base.{
  ℕ, suc, ◌-◌, ◌%◌, ◌^◌, Bool, true, false, not, ◌&&◌, ◌||◌, Option, none, some, List, length, take,
  ltb, leb, ◌==◌, if◌then◌else◌,
}
use tcpflow.Base.Int.{ℤ, pos, negsuc}
use tcpflow.Base.Maps.{find}
use tcpflow.Base.Word.{u32, add32, sub32, add64}
use tcpflow.Flow.{FlowAddr, IpAddr, same_addr, reverse_addr, PacketInfo, TimeVal}
use tcpflow.Flow.Addr.{same_bytes}
use tcpflow.Tcpip.File.{read_at}
use tcpflow.Tcpip.State.{ReconSet, Tcpip, dir_sc, dir_cs, seen_bytes}
use tcpflow.Tcpip.Store.{place, refuse, store_placed, sequence_delta}
use tcpflow.OpenFlows
use tcpflow.Filename.{filename}
use tcpflow.Demux.Os.{file_bytes, get_open, put_open}
use tcpflow.Demux.State.{
  is_none, Demux, Settings, SavedFlow, alert_open, printed, syn_ignored, M, died, undefined,
  Outcome, done, stopped, ◌>>=◌, ◌>>◌, return, stop, get_state, modify, when, emit, load, store,
}
use tcpflow.Demux.Files.{open_file}
use tcpflow.Demux.Flows.{find_tcpip, create_tcpip, remove_flow}
use tcpflow.Demux.Segment.{TcpHeader, tcp_header, tcphdr_size, read_bytes}

-- The return codes 0, 1 and -1.
pub data Verdict : Type 0 where
  processed not_processed failed : Verdict

-- One segment as process_tcp has taken it apart: `payload` is `none` where the header claims bytes
-- that were not captured.
pub record Segment : Type 0 where
  pub addr : FlowAddr
  pub header : TcpHeader
  pub datalen : ℕ
  pub payload : Option (List ℕ)

-- A packet of the saved flow whose bytes are on disk: `open`, `lseek`, `read` and `memcmp`. The file
-- is read only where the descriptor is above 0.
unfoldable pub matches_saved : {S : Type 0} → Segment → SavedFlow → Demux S → Outcome Bool
matches_saved g sf d =
    elim (if leb d.os.limit d.os.used || (d.os.refused sf.saved_filename || d.os.next_fd == 0)
      then none
      else file_bytes sf.saved_filename d.os) [
        | none ↦ done false
        | some b ↦
            let got = read_at (sub32 (sub32 g.header.seq sf.isn) 1) g.datalen b in
            if length got == g.datalen
            then (elim g.payload [ none ↦ stopped undefined | some q ↦ done (same_bytes got q) ])
            else done false
      ]

-- `abs`, which is undefined at the least int32_t.
unfoldable pub abs32 : ℤ → Option ℕ
abs32 (pos n) = some n
abs32 (negsuc n) = if suc n == 2 ^ 31 then none else some (suc n)

abbrev pub exceeds : ℕ → ℤ → Bool
exceeds n (pos m) = ltb m n
exceeds n (negsuc m) = true

abbrev pub need : {S : Type 0} → Option (List ℕ) → M S (List ℕ)
need none = stop undefined
need (some q) = return q

-- The counters of a flow at each packet.
unfoldable pub count_packet : {S : Type 0} → ℕ → PacketInfo → Tcpip S → Tcpip S
count_packet number pi t = record t {
  myflow = record t.myflow {
    tlast = pi.ts;
    len = add64 t.myflow.len pi.len;
    caplen = add64 t.myflow.caplen pi.caplen;
    packet_count = add64 t.myflow.packet_count 1;
  };
  last_packet_number = number;
}

-- A SYN gives the direction; with data it is a violation.
unfoldable pub note_syn : {S : Type 0} → Segment → Tcpip S → Tcpip S
note_syn g t =
    if g.header.syn
    then record t {
      syn_count = add32 t.syn_count 1;
      dir = if g.header.ack then dir_sc else dir_cs;
      violations = if ltb 0 g.datalen then add64 t.violations 1 else t.violations;
    }
    else t

-- The first FIN fixes the length of the stream.
unfoldable pub note_fin : {S : Type 0} → Segment → Tcpip S → Tcpip S
note_fin g t =
    let n = add32 t.fin_count 1 in
    record t {
      fin_count = n;
      fin_size =
          if n == 1 then sub32 (sub32 (add32 g.header.seq g.datalen) t.isn) 1 else t.fin_size;
    }

-- How much of a packet print_packet prints; `none` is its early return.
unfoldable pub print_length : ℤ → (last_byte length : ℕ) → Option ℕ
print_length (negsuc m) last_byte length = some length
print_length (pos m) last_byte length =
    if ltb m last_byte
    then none
    else if ltb (m - last_byte) length
    then (if (m - last_byte) % u32 == 0 then none else some ((m - last_byte) % u32))
    else some length

module _ {S : Type 0} (cfg : Settings) where
  -- `tcpip::print_packet`; the console format is not modelled.
  unfoldable pub print_packet : ℕ → List ℕ → M S (Unit {0})
  print_packet p q = do
    t ← load p
    elim (print_length cfg.opt.max_bytes_per_flow t.last_byte (length q)) [
      | none ↦ return tt
      | some n ↦ do
        name ←
            elim (if length t.flow_pathname == 0
              then filename cfg.naming t.myflow 0 false
              else some t.flow_pathname) [ none ↦ stop died | some s ↦ return s ]
        emit (printed (take n q))
        store p (record t { flow_pathname = name; last_byte = add64 t.last_byte n })
    ]

module _ {S : Type 0} (R : ReconSet S) (cfg : Settings) where
  -- The part of store_packet behind the opening of the file.
  unfoldable pub write_placed : ℕ → Segment → ℤ → TimeVal → List ℕ → M S (Unit {0})
  write_placed p g delta ts q = do
    t ← load p
    d ← get_state
    elim t.fd [
      | none ↦ return tt
      | some fd ↦ elim (get_open fd d.os) [
        | none ↦ stop undefined
        | some o ↦ elim (place cfg.opt.max_bytes_per_flow t (length q) delta) [
          | none ↦ return tt
          | some w ↦ do
            let r = store_placed R cfg.opt ts w q delta t o
            store p r.0
            modify (λ d. record d { os = put_open fd r.1 d.os })
        ]
      ]
    ]

  -- `tcpip::store_packet` with its early returns and the opening of the file.
  unfoldable pub store_segment : ℕ → Segment → ℤ → TimeVal → List ℕ → M S (Unit {0})
  store_segment p g delta ts q = do
    t ← load p
    if length q == 0
        then return tt
        else elim (place cfg.opt.max_bytes_per_flow t (length q) delta) [
          | none ↦ store p (refuse t)
          | some w ↦ do
            ok ← elim t.fd [ some fd ↦ return true | none ↦ open_file cfg p ]
            when ok (write_placed p g delta ts q)
        ]

  -- The data of a packet is printed or stored.
  unfoldable pub take_data : ℕ → Segment → ℤ → TimeVal → M S (Unit {0})
  take_data p g delta ts = when (ltb 0 g.datalen) (do
    q ← need g.payload
    if cfg.opt.console_output
        then print_packet cfg p q
        else when cfg.opt.store_output (do
          t ← load p
          store_segment p g delta ts q
          u ← load p
          when (cfg.has_alert_fd && is_none t.fd) (emit (alert_open u.flow_pathname))))

  -- The end of a flow: a RST, or a FIN with all bytes seen. The last message reads the flow, also
  -- when it has just been removed.
  unfoldable pub finish : ℕ → Segment → M S Verdict
  finish p g = if g.header.rst then (do remove_flow cfg g.addr; return processed) else (do
    t ← load p
    if g.header.fin
        then store p (note_fin g t)
        else modify (λ d. record d { open_flows = OpenFlows.move_to_end p d.open_flows })
    u ← load p
    when (ltb 0 u.fin_count && seen_bytes R u == u.fin_size) (remove_flow cfg g.addr)
    when (leb 50 cfg.debug) (do v ← load p; return tt)
    return processed)

  -- A packet for a flow that is there, from "Now tcp is valid" on.
  unfoldable pub process_known : ℕ → Segment → ℤ → PacketInfo → M S Verdict
  process_known p g delta pi = do
    d ← get_state
    t ← load p
    modify (λ d. record d { packet_counter = add64 d.packet_counter 1 })
    store p (note_syn g (count_packet d.packet_counter pi t))
    take_data p g delta pi.ts
    finish p g

  -- The session of the opposite flow, or a new one.
  unfoldable pub session_of : FlowAddr → M S ℕ
  session_of a = do
    d ← get_state
    elim (find_tcpip (reverse_addr a) d) [
      | none ↦ do modify (λ d. record d { unique_id = add64 d.unique_id 1 }); return d.unique_id
      | some r ↦ do t ← load r; return t.myflow.session_id
    ]

  -- A packet without a flow starts one, unless it has neither SYN nor data.
  unfoldable pub process_new : Segment → PacketInfo → M S Verdict
  process_new g pi = if not g.header.syn && g.datalen == 0 then return processed else (do
    uid ← session_of g.addr
    p ← create_tcpip R cfg g.addr (if g.header.syn then g.header.seq else sub32 g.header.seq 1) pi
    t ← load p
    store p (record t { myflow = record t.myflow { session_id = uid } })
    process_known p g (pos 0) pi)

  -- No flow: packets to ignore, and stragglers of a saved flow.
  unfoldable pub process_unknown : Segment → PacketInfo → M S Verdict
  process_unknown g pi = do
    d ← get_state
    if g.datalen == 0
        then (if g.header.fin || (g.header.rst || (not g.header.syn && not g.header.ack))
            then return processed
            else process_new g pi)
        else elim (find same_addr g.addr d.saved_flow_map) [
          | none ↦ process_new g pi
          | some sf ↦ elim (matches_saved g sf d) [
            | stopped s ↦ stop s
            | done same ↦ if same then return processed else process_new g pi
          ]
        ]

  -- A flow: a gap that is too large ends it, and the packet starts a new one.
  unfoldable pub process_found : ℕ → Segment → PacketInfo → M S Verdict
  process_found p g pi = do
    t ← load p
    if g.header.syn && (ltb 0 t.syn_count && ltb 0 t.pos)
        then (do emit (syn_ignored g.addr); return not_processed)
        else elim (abs32 (sequence_delta g.header.seq t)) [
          | none ↦ stop undefined
          | some n ↦
              if exceeds n cfg.opt.max_seek
              then (do remove_flow cfg g.addr; process_new g pi)
              else process_known p g (sequence_delta g.header.seq t) pi
        ]

  unfoldable pub process_segment : Segment → PacketInfo → M S Verdict
  process_segment g pi = do
    d ← get_state
    elim (find_tcpip g.addr d) [
      | none ↦ if cfg.start_new_connections then process_unknown g pi else return processed
      | some p ↦ process_found p g pi
    ]

  -- The whole of process_tcp on the bytes behind the IP header.
  unfoldable pub process_tcp : IpAddr → IpAddr → ℕ → List ℕ → ℕ → PacketInfo → M S Verdict
  process_tcp src dst family ip_data ip_payload_len pi =
      if ltb ip_payload_len tcphdr_size
      then return not_processed
      else elim (read_bytes ip_data 0 tcphdr_size) [
        | none ↦ stop undefined
        | some raw ↦
            let h = tcp_header raw in
            let n = ip_payload_len - h.header_len in
            process_segment
              (record {
                addr = record {
                  src = src;
                  dst = dst;
                  sport = h.sport;
                  dport = h.dport;
                  family = family;
                };
                header = h;
                datalen = n;
                payload = read_bytes ip_data h.header_len n;
              })
              pi
      ]
