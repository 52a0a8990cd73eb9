-- ===== src/Demux/Invariant/Known.antt =====
-- src/tcpdemux.cpp: tcpdemux::process_tcp keeps the invariant for a flow that is there.
use tcpflow.Base.{ℕ, ◌<◌, ◌≡◌, refl, sym, subst, ◌∙◌, none, some, List, arith}
use tcpflow.Base.Int.{ℤ}
use tcpflow.Base.Maps.{find, insert, erase, find-insert, find-erase}
use tcpflow.Base.Word.{add64}
use tcpflow.OpenFlows
use tcpflow.OpenFlows.{OpenFlows, is_linked}
use tcpflow.OpenFlows.Laws.{move_to_end-IsValid}
use tcpflow.Flow.{FlowAddr, same_addr, PacketInfo}
use tcpflow.Flow.Addr.{same_addr_iff, flow_addr_eq}
use tcpflow.Tcpip.State.{Tcpip, ReconSet}
use tcpflow.Demux.State.{
  Stop, died, aborted, dangling, out_of_fuel, SavedFlow, Demux, Settings, stopped, undefined,
}
use tcpflow.Demux.Rules.{
  IsSafe, Runs-ensure, Runs, Runs-return, Runs-weaken, Runs-if, Runs-then, Runs-get, Runs-load,
  Runs-modify, Runs-when,
}
use tcpflow.Demux.Tcp.{
  Segment, processed, matches_saved, count_packet, note_syn, note_fin, finish, process_known,
}
use tcpflow.Demux.Invariant.{IsSound-alive, IsSound, SameFlows-IsSound, IsSound-counters}
use tcpflow.Demux.Invariant.Flows.{remove_flow-IsSound}
use tcpflow.Demux.Invariant.Data.{Kept, At, Runs-store-Kept, take_data-IsSound}

is_linked-move_to_end :
    (n m : ℕ) (l : OpenFlows) → is_linked m (OpenFlows.move_to_end n l) ≡ is_linked m l
unfolding OpenFlows.move_to_end is_linked
is_linked-move_to_end n m l = ground arith

note_fin-Kept : {S : Type 0} (g : Segment) (t : Tcpip S) → Kept t (note_fin g t)
unfolding note_fin
note_fin-Kept g t = record { addr = refl; fd = refl }

note_syn-Kept :
    {S : Type 0} (g : Segment) (n : ℕ) (pi : PacketInfo) (t : Tcpip S)
    → Kept t (note_syn g (count_packet n pi t))
unfolding note_syn count_packet
note_syn-Kept g n pi t = record { addr = ground arith; fd = ground arith }

pub erased_absent :
    (a : FlowAddr) (m : List (FlowAddr × ℕ)) → find same_addr a (erase same_addr a m) ≡ none
erased_absent a m = ground (arith, find-erase flow_addr_eq a a m, same_addr_iff a a)

pub inserted_found :
    (a : FlowAddr) (p : ℕ) (m : List (FlowAddr × ℕ))
    → find same_addr a (insert same_addr a p m) ≡ some p
inserted_found a p m = ground (arith, find-insert flow_addr_eq a a p m, same_addr_iff a a)

pub matches_saved-IsSafe :
    {S : Type 0} (g : Segment) (sf : SavedFlow) (d : Demux S) (s : Stop)
    → matches_saved g sf d ≡ stopped s
    → IsSafe s
unfolding matches_saved
matches_saved-IsSafe g sf d died e = tt
matches_saved-IsSafe g sf d undefined e = tt
matches_saved-IsSafe g sf d out_of_fuel e = tt
matches_saved-IsSafe g sf d aborted e = ground (arith, e)
matches_saved-IsSafe g sf d dangling e = ground (arith, e)

-- The invariant of the demultiplexer, whatever its flows are.
abbrev pub Sound : {S : Type 0} → ℕ → Demux S → Type 0
Sound limit d = (flows : List (FlowAddr × ℕ)) × IsSound limit flows flows d

move_to_end-IsSound :
    {S : Type 0} (limit : ℕ) (whole flows : List (FlowAddr × ℕ)) (p : ℕ) (d : Demux S)
    → IsSound limit whole flows d
    → IsSound limit whole flows (record d { open_flows = OpenFlows.move_to_end p d.open_flows })
move_to_end-IsSound limit whole flows p d v =
    let o = v.open_valid in
    SameFlows-IsSound limit whole flows d _ v
      (record {
        flow_map = refl;
        next_object = refl;
        saved_flow_map = refl;
        saved_flows = refl;
        addrs = λ q. refl;
      })
      (record {
        valid = move_to_end-IsValid p d.open_flows o.valid;
        linked = λ q. is_linked-move_to_end p q d.open_flows ∙ o.linked q;
        held = o.held;
        apart = o.apart;
        fresh = o.fresh;
      })

module _ {S : Type 0} (R : ReconSet S) (cfg : Settings) (quiet : cfg.debug < 50) where
  finish-Sound :
      (p : ℕ) (g : Segment) (flows : List (FlowAddr × ℕ))
      → find same_addr g.addr flows ≡ some p
      → Runs
          (IsSound cfg.max_saved_flows flows flows)
          (finish R cfg p g)
          (λ _. Sound cfg.max_saved_flows)
  unfolding finish
  finish-Sound p g flows found =
      let limit = cfg.max_saved_flows in
      let gone = erase same_addr g.addr flows in
      Runs-if g.header.rst _ _
        (Runs-then (IsSound limit gone gone) _ _ (remove_flow-IsSound cfg flows g.addr)
          (Runs-return processed (λ d v. (gone, v))))
        (Runs-load p _ (IsSound-alive limit flows flows g.addr p found) (λ t.
          Runs-then (IsSound limit flows flows) _ _
            (Runs-if g.header.fin _ _ (Runs-store-Kept limit flows flows p t _ (note_fin-Kept g t))
              (Runs-modify _ (λ d v. move_to_end-IsSound limit flows flows p d v.1)))
            (Runs-load p _ (IsSound-alive limit flows flows g.addr p found) (λ u.
              Runs-then (Sound limit) _ _
                (Runs-when _ _
                  (λ on.
                    Runs-weaken (IsSound limit flows flows) _ (λ d v. v.1)
                      (Runs-ensure (λ _. IsSound limit gone gone) _ (λ _ d v. (gone, v))
                        (remove_flow-IsSound cfg flows g.addr)))
                  (λ d v. (flows, v.1)))
                (Runs-then (Sound limit) _ _
                  (Runs-when _ _ (λ on. absurd (ground (arith, on, quiet))) (λ d v. v))
                  (Runs-return processed (λ d v. v)))))))

  pub process_known-Sound :
      (p : ℕ) (g : Segment) (delta : ℤ) (pi : PacketInfo) (flows : List (FlowAddr × ℕ))
      → find same_addr g.addr flows ≡ some p
      → Runs
          (IsSound cfg.max_saved_flows flows flows)
          (process_known R cfg p g delta pi)
          (λ _. Sound cfg.max_saved_flows)
  unfolding process_known
  process_known-Sound p g delta pi flows found =
      let limit = cfg.max_saved_flows in
      Runs-get _ (λ s w.
        Runs-weaken (IsSound limit flows flows) _
          (λ d e. subst (IsSound limit flows flows) (sym e) w)
          (Runs-load p _ (IsSound-alive limit flows flows g.addr p found) (λ t.
            Runs-then (At limit flows flows p t) _ _
              (Runs-modify _ (λ d v. (
                v.0,
                IsSound-counters limit flows flows d.flow_counter (add64 d.packet_counter 1)
                    d.unique_id d.events d v.1,
              )))
              (Runs-then (IsSound limit flows flows) _ _
                (Runs-store-Kept limit flows flows p t _ (note_syn-Kept g s.packet_counter pi t))
                (Runs-then (IsSound limit flows flows) _ _
                  (take_data-IsSound R cfg limit flows flows g.addr p g delta pi.ts found)
                  (finish-Sound p g flows found))))))
