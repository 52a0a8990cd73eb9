-- ===== src/Demux/Invariant/Packet.antt =====
-- src/tcpdemux.cpp: tcpdemux::process_pkt keeps the invariant of the demultiplexer.
use tcpflow.Base.{ℕ, ◌≤◌, ◌<◌, ◌≡◌, refl, sym, subst, Bool, ◌&&◌, none, [], arith}
use tcpflow.Flow.{PacketInfo, TimeVal}
use tcpflow.Base.Maps.{find}
use tcpflow.OpenFlows
use tcpflow.OpenFlows.{OpenFlows, is_linked}
use tcpflow.OpenFlows.Laws.{empty-IsValid}
use tcpflow.Tcpip.State.{ReconSet}
use tcpflow.Base.Maps.{find}
use tcpflow.Demux.Rules.{Runs-fact}
use tcpflow.Demux.Os.{Os}
use tcpflow.Demux.State.{Demux, Settings, done, new_demux}
use tcpflow.Demux.Rules.{
  Ensures, Runs, Runs-return, Runs-weaken, Runs-if, Runs-option, Runs-bind, Runs-then, Runs-get,
  Runs-when,
}
use tcpflow.Demux.Tcp.{Verdict, failed, not_processed}
use tcpflow.Demux.Packet.{
  expired, ip4_payload, ip6_payload, process_ip4, process_ip6, close_expired, process_pkt,
  unprocessed,
}
use tcpflow.Demux.Invariant.{IsSound}
use tcpflow.Demux.Invariant.Tcp.{process_tcp-Sound}
use tcpflow.Demux.Invariant.Known.{Sound}
use tcpflow.Demux.Invariant.Expired.{AreLive, Listed, expired-Listed, remove_flows-Sound}

-- The states between two packets: from a new demultiplexer, where the descriptors that `open` has
-- not yet returned are closed, through packets of any version and bytes that process_pkt returns
-- from.
pub data Reached {S : Type 0} (R : ReconSet S) (cfg : Settings) : Demux S → Type 0 where
  start :
      (os : Os) → ((fd : ℕ) → os.next_fd ≤ fd → os.descs fd ≡ none) → Reached R cfg (new_demux os)
  packet :
      (version : ℕ) (pi : PacketInfo) (r : Bool × Verdict) (d d' : Demux S)
      → Reached R cfg d
      → process_pkt R cfg version pi d ≡ done (r, d')
      → Reached R cfg d'

module _ {S : Type 0} (R : ReconSet S) (cfg : Settings) (quiet : cfg.debug < 50) where
  close_expired-Sound :
      (now : TimeVal)
      → Runs {S = S}
          (Sound cfg.max_saved_flows)
          (close_expired cfg now)
          (λ _. Sound cfg.max_saved_flows)
  unfolding close_expired
  close_expired-Sound now = Runs-get _ (λ s w.
      let flows = w.0 in
      let limit = cfg.max_saved_flows in
      Runs-weaken (IsSound limit flows flows) _
        (λ d e. subst (IsSound limit flows flows) (sym e) w.1)
        (Runs-when _ _
          (λ on.
            Runs-bind (Listed cfg flows flows) _ _
              (subst
                (λ m.
                  Runs {S = S} (IsSound limit flows flows) (expired cfg.tcp_timeout now m)
                    (Listed cfg flows flows))
                (sym w.1.at)
                (expired-Listed cfg flows cfg.tcp_timeout now flows w.1.map_valid.distinct
                  (λ a p e. e)))
              (λ ps.
                Runs-fact (AreLive flows ps) _ (λ d v. v.1)
                  (λ live.
                    Runs-weaken (IsSound limit flows flows) _ (λ d v. v.0)
                      (remove_flows-Sound cfg flows ps live))))
          (λ d v. (flows, v))))

  process_ip4-Sound :
      (pi : PacketInfo)
      → Runs (Sound cfg.max_saved_flows) (process_ip4 R cfg pi) (λ _. Sound cfg.max_saved_flows)
  unfolding process_ip4
  process_ip4-Sound pi =
      Runs-option (ip4_payload pi.payload) _ _ (λ e. Runs-return failed (λ d v. v))
        (λ w e. process_tcp-Sound R cfg quiet _ _ _ _ _ pi)

  process_ip6-Sound :
      (pi : PacketInfo)
      → Runs (Sound cfg.max_saved_flows) (process_ip6 R cfg pi) (λ _. Sound cfg.max_saved_flows)
  unfolding process_ip6
  process_ip6-Sound pi =
      Runs-option (ip6_payload pi.payload) _ _ (λ e. Runs-return failed (λ d v. v))
        (λ w e. process_tcp-Sound R cfg quiet _ _ _ _ _ pi)

  process_pkt-Sound :
      (version : ℕ) (pi : PacketInfo)
      → Runs
          (Sound cfg.max_saved_flows)
          (process_pkt R cfg version pi)
          (λ _. Sound cfg.max_saved_flows)
  unfolding process_pkt
  process_pkt-Sound version pi =
      let limit = cfg.max_saved_flows in
      Runs-bind (λ _. Sound limit) _ _
        (Runs-if _ _ _ (process_ip4-Sound pi)
          (Runs-if _ _ _ (process_ip6-Sound pi) (Runs-return not_processed (λ d v. v))))
        (λ r.
          Runs-then (Sound limit) _ _ (close_expired-Sound pi.ts)
            (Runs-return (cfg.has_pwriter && unprocessed r, r) (λ d v. v)))

  new_demux-IsSound :
      (limit : ℕ) (os : Os)
      → ((fd : ℕ) → os.next_fd ≤ fd → os.descs fd ≡ none)
      → IsSound {S = S} limit [] [] (new_demux os)
  unfolding new_demux OpenFlows.empty is_linked find
  new_demux-IsSound limit os fresh = record {
    map_valid = record { objects = λ a p. (λ e. cc, λ e. cc); distinct = tt; unborn = λ p h. refl };
    open_valid = record {
      valid = empty-IsValid;
      linked = λ p. refl;
      held = λ p fd e. cc;
      apart = λ p q fd e f. cc;
      fresh = fresh;
    };
    saved_valid = record { alive = λ a f e. cc; bounded = omega arith };
    at = refl;
  }

  pub Reached-Sound : (d : Demux S) → Reached R cfg d → Sound cfg.max_saved_flows d
  Reached-Sound _ (start os fresh) = ([], new_demux-IsSound cfg.max_saved_flows os fresh)
  Reached-Sound _ (packet version pi r d d' s e) =
      subst (λ o. Ensures o (λ _. Sound cfg.max_saved_flows)) e
        ((process_pkt-Sound version pi).at d (Reached-Sound d s))

  -- Where the debug level is below 50: in every state that process_pkt reaches from a new
  -- demultiplexer, whatever the packets were, the next packet, of any version and bytes, never makes
  -- it access a deleted flow or delete one whose file is open. Where process_pkt returns, the
  -- invariant holds: the map leads from each address to the live flow of that address and to no
  -- other, the list of open flows is exactly the flows with an open file, each with a descriptor of
  -- its own, and the map of saved flows has no stale entry.
  pub process_pkt-IsSafe :
      (version : ℕ) (pi : PacketInfo) (d : Demux S)
      → Reached R cfg d
      → Ensures (process_pkt R cfg version pi d) (λ _. Sound cfg.max_saved_flows)
  process_pkt-IsSafe version pi d s = (process_pkt-Sound version pi).at d (Reached-Sound d s)
