-- ===== src/Demux/Invariant/Ending.antt =====
-- src/tcpdemux.cpp: tcpdemux::remove_all_flows, the end of the program.
use tcpflow.Base.{
  ℕ, ◌<◌, ◌≡◌, refl, sym, ap, subst, ◌∙◌, inl, inr, not, Option, none, List, [], ◌∷◌, arith, length,
  Option-cases,
}
use tcpflow.Base.Maps.{find}
use tcpflow.Flow.{FlowAddr, same_addr}
use tcpflow.OpenFlows
use tcpflow.OpenFlows.{OpenFlows, is_linked, nodes}
use tcpflow.OpenFlows.Laws.{Cells, unlinked-it}
use tcpflow.Tcpip.State.{ReconSet}
use tcpflow.Demux.State.{Demux, Settings, is_none}
use tcpflow.Demux.Rules.{
  Runs-ensure, Runs-fact, Ensures, Runs, Runs-return, Runs-weaken, Runs-then, Runs-get, Runs-modify,
}
use tcpflow.Demux.Flows.{post_process_all, remove_all_flows}
use tcpflow.Demux.Files.Closing.{OpenIsValid, fd_of}
use tcpflow.Demux.Invariant.{erase_head, find_head, IsSound, addr_of, addr_of-none}
use tcpflow.Demux.Invariant.Flows.{Erased, post_process-Erased, settle-IsSound}
use tcpflow.Demux.Invariant.Known.{Sound}
use tcpflow.Demux.Invariant.Packet.{Reached, Reached-Sound}

-- No flow, no object, no open file.
pub record IsEnded {S : Type 0} (d : Demux S) : Type 0 where
  pub flow_map : d.flow_map ≡ []
  pub heap : (p : ℕ) → d.heap p ≡ none
  pub open_flows : OpenFlows.size d.open_flows ≡ 0

Cells-empty :
    (it : ℕ → Option ℕ) (li : List (ℕ × ℕ))
    → ((n : ℕ) → it n ≡ none)
    → Cells it li
    → length (nodes li) ≡ 0
Cells-empty it [] h v = refl
Cells-empty it ((c, n) ∷ li) h v = absurd (ground (arith, h n, v.0))

module _ {S : Type 0} where
  none_open :
      (d : Demux S) → OpenIsValid d → ((p : ℕ) → d.heap p ≡ none) → OpenFlows.size d.open_flows ≡ 0
  unfolding OpenFlows.size
  none_open d v h =
      let l = d.open_flows in
      v.valid.counted
      ∙ Cells-empty l.it l.li
          (λ n. unlinked-it n l (v.linked n ∙ ap (λ o. not (is_none (fd_of o))) (h n)))
          v.valid.cells

  empty-IsEnded : (limit : ℕ) (d : Demux S) → IsSound limit [] [] d → IsEnded d
  unfolding find
  empty-IsEnded limit d v =
      let gone : (p : ℕ) → d.heap p ≡ none = λ p. elim (Option-cases (addr_of (d.heap p))) [
        | inl e ↦ addr_of-none (d.heap p) e
        | inr (a, e) ↦ let x = (v.map_valid.objects a p).1 e in cc
      ] in
      record { flow_map = v.at; heap = gone; open_flows = none_open d v.open_valid gone }

module _ {S : Type 0} (cfg : Settings) where
  post_process_all-IsSound :
      (whole flows : List (FlowAddr × ℕ))
      → Runs {S = S}
          (IsSound cfg.max_saved_flows whole flows)
          (post_process_all cfg flows)
          (λ _. IsSound cfg.max_saved_flows whole [])
  unfolding post_process_all
  post_process_all-IsSound whole [] = Runs-return tt (λ d v. v)
  post_process_all-IsSound whole ((a, p) ∷ m) =
      let limit = cfg.max_saved_flows in
      Runs-fact (find same_addr a m ≡ none) _ (λ d v. v.map_valid.distinct.0)
        (λ absent.
          Runs-then (IsSound limit whole m) _ _
            (Runs-ensure (λ _. Erased cfg whole ((a, p) ∷ m) a) _
              (λ _ d v. subst (λ m. IsSound limit whole m d) (erase_head a p m absent) v)
              (post_process-Erased cfg whole ((a, p) ∷ m) a p (find_head a p m)))
            (post_process_all-IsSound whole m))

  remove_all_flows-Ended :
      Runs {S = S} (Sound cfg.max_saved_flows) (remove_all_flows cfg) (λ _. IsEnded)
  unfolding remove_all_flows
  remove_all_flows-Ended =
      let limit = cfg.max_saved_flows in
      Runs-get _ (λ s w.
        let whole = w.0 in
        Runs-weaken (IsSound limit whole whole) _
          (λ d e. subst (IsSound limit whole whole) (sym e) w.1)
          (Runs-then (IsSound limit whole []) _ _ (Runs-list whole s.flow_map (sym w.1.at))
            (Runs-modify _ (λ d v. empty-IsEnded limit _ (settle-IsSound limit whole [] d v)))))
    where
      Runs-list :
          (whole flows : List (FlowAddr × ℕ))
          → whole ≡ flows
          → Runs {S = S}
              (IsSound cfg.max_saved_flows whole whole)
              (post_process_all cfg flows)
              (λ _. IsSound cfg.max_saved_flows whole [])
      Runs-list whole flows e =
          subst
            (λ m.
              Runs {S = S} (IsSound cfg.max_saved_flows whole whole) (post_process_all cfg m)
                (λ _. IsSound cfg.max_saved_flows whole []))
            e (post_process_all-IsSound whole whole)

module _ {S : Type 0} (R : ReconSet S) (cfg : Settings) (quiet : cfg.debug < 50) where
  -- Where the debug level is below 50: in every state that process_pkt reaches from a new
  -- demultiplexer, whatever the packets were, remove_all_flows never accesses a deleted flow or
  -- deletes one whose file is open. Where it returns, the map of flows is empty, every flow is
  -- deleted and no file is in the list of open ones.
  pub remove_all_flows-IsEnded :
      (d : Demux S) → Reached R cfg d → Ensures (remove_all_flows cfg d) (λ _. IsEnded)
  remove_all_flows-IsEnded d s = (remove_all_flows-Ended cfg).at d (Reached-Sound R cfg quiet d s)
