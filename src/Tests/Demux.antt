-- ===== src/Tests/Demux.antt =====
-- The demultiplexer: packets from the wire, and the theorems at concrete states.
use tcpflow.Base.{ℕ, ◌+◌, ◌*◌, ◌≡◌, refl, ◌↔◌, true, false, some, List, [], ◌∷◌, map, arith, length}
use tcpflow.Base.Maps
use tcpflow.Flow.{new_flow, same_addr, reverse_addr, PacketInfo}
use tcpflow.Flow.Addr.{same_bytes}
use tcpflow.Tcpip.File.{write_at, read_at, write, seek_cur}
use tcpflow.Tcpip.State.{new_tcpip, seen_bytes, update_seen}
use tcpflow.Tcpip.Store.{
  limit_length, place, refuse, open_up, is_keepalive, move_by, write_packet, store_placed,
  sequence_delta,
}
use tcpflow.OpenFlows
use tcpflow.Filename.{filename}
use tcpflow.Demux.Packet.Lengths.{process_ip4_overrun}
use tcpflow.Flow.Addr.{same_addr_iff}
use tcpflow.Demux.State.{undefined}
use tcpflow.Demux.Os.{file_bytes, open_create, close, get_open, put_open}
use tcpflow.Demux.State.{Demux, SavedFlow, Outcome, done, stopped, monad}
use tcpflow.Demux.Files.{
  close_file, close_oldest_fd, try_open, retrying_open, open_rounds, new_filename, open_transcript,
  open_file,
}
use tcpflow.Demux.Flows.{
  find_tcpip, drop_oldest, save_flow, create_tcpip, scan_transcript, post_process, remove_flow,
}
use tcpflow.Demux.Flows.Saved.{SavedIsValid, save_flow-IsValid}
use tcpflow.Demux.Segment.{TcpHeader, tcp_header, read_bytes}
use tcpflow.Demux.Tcp.{
  Segment, Verdict, processed, matches_saved, abs32, count_packet, note_syn, note_fin, print_packet,
  write_placed, store_segment, take_data, finish, process_known, session_of, process_new,
  process_unknown, process_found, process_segment, process_tcp,
}
use tcpflow.Demux.Packet.{ip4_addr, ip4_payload, process_ip4}
use tcpflow.Tests.Examples.{system, recon_list, packet, client, settings, idle, open_flow}

-- Opens every method.
unfoldable pub all_open : Unit {0}
unfolding monad close_file close_oldest_fd try_open retrying_open open_rounds new_filename
    open_transcript open_file find_tcpip drop_oldest save_flow create_tcpip scan_transcript
    post_process remove_flow tcp_header read_bytes matches_saved abs32 count_packet note_syn
    note_fin print_packet write_placed store_segment take_data finish process_known session_of
    process_new process_unknown process_found process_segment process_tcp ip4_addr ip4_payload
    process_ip4 filename new_flow same_addr reverse_addr same_bytes write_at read_at write seek_cur
    new_tcpip seen_bytes update_seen limit_length place refuse open_up is_keepalive move_by
    write_packet store_placed sequence_delta file_bytes open_create close get_open put_open
    Maps.find Maps.insert Maps.erase OpenFlows.push_back OpenFlows.erase OpenFlows.erase_cell
    OpenFlows.reset OpenFlows.move_to_end OpenFlows.size OpenFlows.front
all_open = tt

-- An IPv4 datagram of `client` with its TCP header: sequence number 0x000000_s, flags, data.
abbrev pub datagram : ℕ → ℕ → List ℕ → List ℕ
datagram s flags payload =
    69
    ∷ 0
    ∷ 0
    ∷ (40 + length payload)
    ∷ 0
    ∷ 0
    ∷ 0
    ∷ 0
    ∷ 64
    ∷ 6
    ∷ 0
    ∷ 0
    ∷ 10
    ∷ 0
    ∷ 0
    ∷ 1
    ∷ 10
    ∷ 0
    ∷ 0
    ∷ 2
    ∷ 15
    ∷ 160
    ∷ 0
    ∷ 80
    ∷ 0
    ∷ 0
    ∷ 0
    ∷ s
    ∷ 0
    ∷ 0
    ∷ 0
    ∷ 0
    ∷ 80
    ∷ flags
    ∷ 0
    ∷ 0
    ∷ 0
    ∷ 0
    ∷ 0
    ∷ 0
    ∷ payload

abbrev pub from_wire : List ℕ → PacketInfo
from_wire p = record packet { payload = p }

abbrev then_packet :
    Outcome (Verdict × Demux (List ℕ)) → List ℕ → Outcome (Verdict × Demux (List ℕ))
then_packet (stopped s) p = stopped s
then_packet (done (v, d)) p = process_ip4 recon_list settings (from_wire p) d

-- SYN at 9, "lo" at 13, "hel" at 10, FIN at 15.
conversation : Outcome (Verdict × Demux (List ℕ))
conversation =
    then_packet
      (then_packet
        (then_packet (process_ip4 recon_list settings (from_wire (datagram 9 2 [])) idle)
          (datagram 13 16 (108 ∷ 111 ∷ [])))
        (datagram 10 16 (104 ∷ 101 ∷ 108 ∷ [])))
      (datagram 15 17 [])

abbrev outcome_files : Outcome (Verdict × Demux (List ℕ)) → List (List ℕ)
outcome_files (stopped s) = []
outcome_files (done (v, d)) = map (λ e. e.1) d.os.files

abbrev open_count : Outcome (Verdict × Demux (List ℕ)) → ℕ
open_count (stopped s) = 99
open_count (done (v, d)) = length d.flow_map + length d.saved_flows * 10

-- The stream is put together, and the FIN ends the flow, which is then saved.
conversation_files : outcome_files conversation ≡ (104 ∷ 101 ∷ 108 ∷ 108 ∷ 111 ∷ []) ∷ []
unfolding conversation all_open
conversation_files = refl

conversation_count : open_count conversation ≡ 10
unfolding conversation all_open
conversation_count = refl

abbrev header : TcpHeader
header = record {
  sport = 4000;
  dport = 80;
  seq = 0;
  header_len = 20;
  syn = false;
  ack = true;
  fin = false;
  rst = false;
}

abbrev segment : Segment
segment = record { addr = client; header = header; datalen = 2; payload = some (1 ∷ 2 ∷ []) }

abbrev saved : SavedFlow
saved = record { addr = client; saved_filename = 116 ∷ []; isn = 4294967293 }

abbrev finished : Demux (List ℕ)
finished = record idle {
  saved_flow_map = (client, saved) ∷ [];
  saved_flows = saved ∷ [];
  os = record system { files = (116 ∷ [], 7 ∷ 8 ∷ 1 ∷ 2 ∷ []) ∷ [] };
}

-- A segment of a flow that has ended, whose data its file holds already.
straggler : process_segment recon_list settings segment packet finished ≡ done (processed, finished)
unfolding all_open
straggler = refl

idle-SavedIsValid : SavedIsValid 100 idle
unfolding Maps.find
idle-SavedIsValid = record { alive = λ a f e. cc; bounded = omega arith }

save_flow-IsValid_example :
    SavedIsValid 100 (save_flow 100 open_flow idle)
    × (Maps.find same_addr client (save_flow 100 open_flow idle).saved_flow_map
        ≡ some (record { addr = client; saved_filename = 116 ∷ []; isn = 4294967293 }))
save_flow-IsValid_example = save_flow-IsValid 100 open_flow idle idle-SavedIsValid

-- A header length of 24 and a total length of 40, with 20 bytes captured.
abbrev cut_off : List ℕ
cut_off = 70 ∷ 0 ∷ 0 ∷ 40 ∷ 0 ∷ 0 ∷ 0 ∷ 0 ∷ 64 ∷ 6 ∷ 0 ∷ 0 ∷ 10 ∷ 0 ∷ 0 ∷ 1 ∷ 10 ∷ 0 ∷ 0 ∷ 2 ∷ []

process_ip4_overrun_example :
    process_ip4 recon_list settings (from_wire cut_off) idle ≡ stopped undefined
process_ip4_overrun_example =
    process_ip4_overrun recon_list settings (from_wire cut_off) idle (omega arith) refl refl
      (omega arith) (omega arith)

same_addr_iff_example : (same_addr client client ≡ true) ↔ (client ≡ client)
same_addr_iff_example = same_addr_iff client client
