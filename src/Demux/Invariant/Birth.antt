-- ===== src/Demux/Invariant/Birth.antt =====
-- src/tcpdemux.cpp: tcpdemux::create_tcpip keeps the invariant of the demultiplexer.
use tcpflow.Base.{ℕ, ◌+◌, ◌≡◌, refl, ap, ◌∙◌, not, none, some, List, arith}
use tcpflow.Base.Maps.{insert-IsDistinct, find, insert, find-insert}
use tcpflow.Flow.{FlowAddr, same_addr}
use tcpflow.Flow.Addr.{same_addr_iff, flow_addr_eq}
use tcpflow.Tcpip.State.{Tcpip}
use tcpflow.Base.Word.{add64}
use tcpflow.OpenFlows
use tcpflow.OpenFlows.Laws.{unlinked-it, reset_unlinked}
use tcpflow.Flow.{PacketInfo, new_flow}
use tcpflow.Tcpip.State.{ReconSet, new_tcpip}
use tcpflow.Demux.State.{Demux, Settings, set_object, is_none}
use tcpflow.Demux.Rules.{Runs}
use tcpflow.Demux.Flows.{create_tcpip}
use tcpflow.Demux.Files.Closing.{SameOpen-OpenIsValid, OpenIsValid, fd_of}
use tcpflow.Demux.Invariant.{IsSound}

unlinked_gone :
    {S : Type 0} (p : ℕ) (d : Demux S) → OpenIsValid d → d.heap p ≡ none → d.open_flows.it p ≡ none
unlinked_gone p d v h =
    unlinked-it p d.open_flows (v.linked p ∙ ap (λ o. not (is_none (fd_of o))) h)

module _ {S : Type 0} (R : ReconSet S) (cfg : Settings) (flows : List (FlowAddr × ℕ)) where
  abbrev born : FlowAddr → Tcpip S → Demux S → Demux S
  born a t d = record d {
    flow_counter = add64 d.flow_counter 1;
    next_object = d.next_object + 1;
    heap = set_object d.next_object (some t) d.heap;
    flow_map = insert same_addr a d.next_object d.flow_map;
    open_flows = OpenFlows.reset d.next_object d.open_flows;
  }

  born-IsSound :
      (a : FlowAddr) (t : Tcpip S) (limit : ℕ) (d : Demux S)
      → t.myflow.addr ≡ a
      → t.fd ≡ none
      → find same_addr a flows ≡ none
      → IsSound limit flows flows d
      → IsSound limit
          (insert same_addr a d.next_object flows)
          (insert same_addr a d.next_object flows)
          (born a t d)
  born-IsSound a t limit d at closed absent v =
      let p = d.next_object in
      let gone = v.map_valid.unborn p (omega arith) in
      let same = reset_unlinked p d.open_flows (unlinked_gone p d v.open_valid gone) in
      record {
        map_valid = record {
          objects = λ b q. ground (
            arith,
            find-insert flow_addr_eq a b p flows,
            same_addr_iff a b,
            at,
            gone,
            v.map_valid.objects b q,
            v.map_valid.objects b p,
            v.map_valid.objects a q,
            absent,
          );
          distinct = insert-IsDistinct flow_addr_eq a p flows v.map_valid.distinct;
          unborn = λ q h. ground (arith, v.map_valid.unborn q, h);
        };
        open_valid = SameOpen-OpenIsValid d (born a t d) v.open_valid (record {
          os = refl;
          open_flows = same;
          fds = λ q. ground (arith, closed, gone, ap d.heap {x = q} {y = p});
        });
        saved_valid = record { alive = v.saved_valid.alive; bounded = v.saved_valid.bounded };
        at = ap (insert same_addr a p) v.at;
      }

  pub create_tcpip-IsSound :
      (a : FlowAddr) (isn : ℕ) (pi : PacketInfo)
      → find same_addr a flows ≡ none
      → Runs (IsSound cfg.max_saved_flows flows flows) (create_tcpip R cfg a isn pi) (λ p.
        IsSound cfg.max_saved_flows (insert same_addr a p flows) (insert same_addr a p flows))
  unfolding create_tcpip new_flow new_tcpip
  create_tcpip-IsSound a isn pi absent = record {
    at = λ d v. born-IsSound a _ cfg.max_saved_flows d refl refl absent v;
  }
