-- ===== src/Demux/Invariant/Tcp.antt =====
-- src/tcpdemux.cpp: tcpdemux::process_tcp keeps the invariant of the demultiplexer.
use tcpflow.Base.{ℕ, ◌<◌, ◌≡◌, refl, sym, ap, subst, ◌∙◌, none, some, List, ◌==◌}
use tcpflow.Base.Int.{pos}
use tcpflow.Base.Maps.{find, insert, erase}
use tcpflow.Base.Word.{add64}
use tcpflow.Flow.{FlowAddr, IpAddr, same_addr, reverse_addr, PacketInfo}
use tcpflow.Tcpip.State.{ReconSet}
use tcpflow.Tcpip.Store.{sequence_delta}
use tcpflow.Demux.State.{Settings, undefined, syn_ignored}
use tcpflow.Demux.Rules.{
  Runs-outcome, Runs, Runs-return, Runs-stop, Runs-weaken, Runs-if, Runs-option, Runs-bind,
  Runs-then, Runs-get, Runs-load, Runs-modify,
}
use tcpflow.Demux.Flows.{find_tcpip}
use tcpflow.Demux.Segment.{tcphdr_size, read_bytes}
use tcpflow.Demux.Tcp.{
  Segment, processed, not_processed, matches_saved, abs32, session_of, process_new, process_unknown,
  process_found, process_segment, process_tcp,
}
use tcpflow.Demux.Invariant.{IsSound-alive, IsSound, IsSound-counters, Runs-emit-IsSound}
use tcpflow.Demux.Invariant.Flows.{remove_flow-IsSound}
use tcpflow.Demux.Invariant.Birth.{create_tcpip-IsSound}
use tcpflow.Demux.Invariant.Data.{Runs-store-Kept}
use tcpflow.Demux.Invariant.Known.{
  erased_absent, inserted_found, matches_saved-IsSafe, Sound, process_known-Sound,
}

module _ {S : Type 0} (R : ReconSet S) (cfg : Settings) (quiet : cfg.debug < 50) where
  session_of-IsSound :
      (a : FlowAddr) (flows : List (FlowAddr × ℕ))
      → Runs {S = S}
          (IsSound cfg.max_saved_flows flows flows)
          (session_of R cfg a)
          (λ _. IsSound cfg.max_saved_flows flows flows)
  unfolding session_of find_tcpip
  session_of-IsSound a flows =
      let limit = cfg.max_saved_flows in
      Runs-get _ (λ s w.
        Runs-weaken (IsSound limit flows flows) _
          (λ d e. subst (IsSound limit flows flows) (sym e) w)
          (Runs-option (find same_addr (reverse_addr a) s.flow_map) _ _
            (λ e.
              Runs-then (IsSound limit flows flows) _ _
                (Runs-modify _ (λ d v.
                  IsSound-counters limit flows flows d.flow_counter d.packet_counter
                    (add64 d.unique_id 1) d.events d v))
                (Runs-return s.unique_id (λ d v. v)))
            (λ r e.
              Runs-load r _
                (IsSound-alive limit flows flows (reverse_addr a) r
                  (ap (find same_addr (reverse_addr a)) (sym w.at) ∙ e))
                (λ t. Runs-return t.myflow.session_id (λ d v. v.1)))))

  process_new-Sound :
      (g : Segment) (pi : PacketInfo) (flows : List (FlowAddr × ℕ))
      → find same_addr g.addr flows ≡ none
      → Runs
          (IsSound cfg.max_saved_flows flows flows)
          (process_new R cfg g pi)
          (λ _. Sound cfg.max_saved_flows)
  unfolding process_new
  process_new-Sound g pi flows absent =
      let limit = cfg.max_saved_flows in
      Runs-if _ _ _ (Runs-return processed (λ d v. (flows, v))) (
        Runs-bind (λ _. IsSound limit flows flows) _ _ (session_of-IsSound g.addr flows)
          (λ uid.
            Runs-bind
              (λ p.
                IsSound limit (insert same_addr g.addr p flows) (insert same_addr g.addr p flows))
              _ _ (create_tcpip-IsSound R cfg flows g.addr _ pi absent)
              (λ p.
                let more = insert same_addr g.addr p flows in
                let found = inserted_found g.addr p flows in
                Runs-load p _ (IsSound-alive limit more more g.addr p found) (λ t.
                  Runs-then (IsSound limit more more) _ _
                    (Runs-store-Kept limit more more p t _ (record { addr = refl; fd = refl }))
                    (process_known-Sound R cfg quiet p g (pos 0) pi more found)))))

  process_unknown-Sound :
      (g : Segment) (pi : PacketInfo) (flows : List (FlowAddr × ℕ))
      → find same_addr g.addr flows ≡ none
      → Runs
          (IsSound cfg.max_saved_flows flows flows)
          (process_unknown R cfg g pi)
          (λ _. Sound cfg.max_saved_flows)
  unfolding process_unknown
  process_unknown-Sound g pi flows absent =
      let limit = cfg.max_saved_flows in
      let next = process_new-Sound g pi flows absent in
      Runs-get _ (λ s w.
        Runs-weaken (IsSound limit flows flows) _
          (λ d e. subst (IsSound limit flows flows) (sym e) w)
          (Runs-if (g.datalen == 0) _ _
            (Runs-if _ _ _ (Runs-return processed (λ d v. (flows, v))) next)
            (Runs-option (find same_addr g.addr s.saved_flow_map) _ _ (λ e. next)
              (λ sf e.
                Runs-outcome (matches_saved g sf s) _ _
                  (λ r e. Runs-stop r (matches_saved-IsSafe g sf s r e))
                  (λ same. Runs-if same _ _ (Runs-return processed (λ d v. (flows, v))) next)))))

  process_found-Sound :
      (p : ℕ) (g : Segment) (pi : PacketInfo) (flows : List (FlowAddr × ℕ))
      → find same_addr g.addr flows ≡ some p
      → Runs
          (IsSound cfg.max_saved_flows flows flows)
          (process_found R cfg p g pi)
          (λ _. Sound cfg.max_saved_flows)
  unfolding process_found
  process_found-Sound p g pi flows found =
      let limit = cfg.max_saved_flows in
      let gone = erase same_addr g.addr flows in
      Runs-load p _ (IsSound-alive limit flows flows g.addr p found) (λ t.
        Runs-weaken (IsSound limit flows flows) _ (λ d v. v.1)
          (Runs-if _ _ _
            (Runs-then (IsSound limit flows flows) _ _
              (Runs-emit-IsSound limit flows flows (syn_ignored g.addr))
              (Runs-return not_processed (λ d v. (flows, v))))
            (Runs-option (abs32 (sequence_delta g.header.seq t)) _ _ (λ e. Runs-stop undefined tt)
              (λ n e.
                Runs-if _ _ _
                  (Runs-then (IsSound limit gone gone) _ _ (remove_flow-IsSound cfg flows g.addr)
                    (process_new-Sound g pi gone (erased_absent g.addr flows)))
                  (process_known-Sound R cfg quiet p g (sequence_delta g.header.seq t) pi flows
                    found)))))

  process_segment-Sound :
      (g : Segment) (pi : PacketInfo)
      → Runs
          (Sound cfg.max_saved_flows)
          (process_segment R cfg g pi)
          (λ _. Sound cfg.max_saved_flows)
  unfolding process_segment find_tcpip
  process_segment-Sound g pi =
      let limit = cfg.max_saved_flows in
      Runs-get _ (λ s w.
        let flows = w.0 in
        Runs-weaken (IsSound limit flows flows) _
          (λ d e. subst (IsSound limit flows flows) (sym e) w.1)
          (Runs-option (find same_addr g.addr s.flow_map) _ _
            (λ e.
              Runs-if cfg.start_new_connections _ _
                (process_unknown-Sound g pi flows (ap (find same_addr g.addr) (sym w.1.at) ∙ e))
                (Runs-return processed (λ d v. (flows, v))))
            (λ p e.
              process_found-Sound p g pi flows (ap (find same_addr g.addr) (sym w.1.at) ∙ e))))

  -- A TCP segment, of any bytes, is processed with the invariant kept.
  pub process_tcp-Sound :
      (src dst : IpAddr) (family : ℕ) (ip_data : List ℕ) (n : ℕ) (pi : PacketInfo)
      → Runs
          (Sound cfg.max_saved_flows)
          (process_tcp R cfg src dst family ip_data n pi)
          (λ _. Sound cfg.max_saved_flows)
  unfolding process_tcp
  process_tcp-Sound src dst family ip_data n pi =
      Runs-if _ _ _ (Runs-return not_processed (λ d v. v)) (
        Runs-option (read_bytes ip_data 0 tcphdr_size) _ _ (λ e. Runs-stop undefined tt)
          (λ raw e. process_segment-Sound _ pi))
