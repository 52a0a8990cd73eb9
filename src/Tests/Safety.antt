-- ===== src/Tests/Safety.antt =====
-- Packets through src/tcpdemux.cpp, one after another.
use tcpflow.Base.{ℕ, ◌≡◌, refl, false, List, [], ◌∷◌, arith}
use tcpflow.OpenFlows
use tcpflow.Flow.{PacketInfo}
use tcpflow.Demux.State.{Settings, dangling, Demux, done, stopped, new_demux}
use tcpflow.Demux.Rules.{Ensures}
use tcpflow.Demux.Tcp.{processed}
use tcpflow.Demux.Packet.{process_pkt, close_expired, expired, remove_flows}
use tcpflow.Demux.Invariant.Known.{Sound}
use tcpflow.Demux.Flows.{remove_all_flows}
use tcpflow.Demux.Invariant.Ending.{IsEnded, remove_all_flows-IsEnded}
use tcpflow.Demux.Invariant.Packet.{Reached, start, packet, process_pkt-IsSafe}
use tcpflow.Tests.Examples.{recon_list, settings, system}
use tcpflow.Tests.Demux.{all_open, datagram, from_wire}

-- Flows end after ten seconds.
abbrev timed : Settings
timed = record settings { tcp_timeout = 10 }

abbrev first : Demux (List ℕ)
first = new_demux system

-- The SYN of the conversation.
abbrev syn : PacketInfo
syn = from_wire (datagram 9 2 [])

abbrev second : Demux (List ℕ)
second = elim (process_pkt recon_list timed 4 syn first) [ stopped s ↦ first | done (r, d) ↦ d ]

second-Reached : Reached recon_list timed second
unfolding all_open process_pkt close_expired expired remove_flows new_demux OpenFlows.empty
second-Reached = packet 4 syn (false, processed) first second (start system (λ fd h. refl)) refl

-- At level 50 the last message of process_tcp reads the flow that the FIN has just removed.
loud_fin :
    process_pkt recon_list (record timed { debug = 50 }) 4 (from_wire (datagram 10 17 [])) second
    ≡ stopped dangling
unfolding all_open process_pkt close_expired expired remove_flows new_demux OpenFlows.empty
loud_fin = refl

process_pkt-IsSafe_example :
    Ensures
      (process_pkt recon_list timed 4 (from_wire (datagram 13 16 (108 ∷ 111 ∷ []))) second)
      (λ _. Sound timed.max_saved_flows)
process_pkt-IsSafe_example =
    process_pkt-IsSafe recon_list timed (omega arith) 4
      (from_wire (datagram 13 16 (108 ∷ 111 ∷ []))) second second-Reached

remove_all_flows-IsEnded_example : Ensures (remove_all_flows timed second) (λ _. IsEnded)
remove_all_flows-IsEnded_example =
    remove_all_flows-IsEnded recon_list timed (omega arith) second second-Reached
