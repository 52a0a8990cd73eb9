-- ===== src/Demux/Invariant/Flows.antt =====
-- src/tcpdemux.cpp: the end and the start of a flow keep the invariant of the demultiplexer.
use tcpflow.Base.{ℕ, ◌≡◌, refl, sym, ap, subst, ◌∙◌, Bool, none, some, List}
use tcpflow.Base.Maps.{find, erase, erase_absent}
use tcpflow.Flow.{FlowAddr, same_addr}
use tcpflow.Tcpip.State.{Tcpip}
use tcpflow.Demux.Os.{file_bytes}
use tcpflow.Demux.State.{◌>>◌, when, modify, scanned, Demux, Settings, aborted, stop, set_object}
use tcpflow.Demux.Rules.{
  Runs-fact, Runs, Runs-return, Runs-weaken, Runs-option, Runs-bind, Runs-then, Runs-get, Runs-load,
  Runs-modify, Runs-when,
}
use tcpflow.Demux.Flows.{find_tcpip, save_flow, scan_transcript, post_process, remove_flow}
use tcpflow.Demux.Files.Closing.{SameOpen-OpenIsValid, fd_of}
use tcpflow.Demux.Invariant.{
  IsSound-alive, emit, Event, IsReady, Runs-emit-IsReady, IsSound, Runs-emit-IsSound,
}
use tcpflow.Demux.Invariant.Opening.{close_file-IsSound}
use tcpflow.Demux.Invariant.Open.{open_file-IsSound}
use tcpflow.Demux.Invariant.Saving.{save_flow_saved, save_flow-IsSound, delete-IsSound}

module _ {S : Type 0} (cfg : Settings) (whole flows : List (FlowAddr × ℕ)) where
  abbrev Sound : Demux S → Type 0
  Sound = IsSound cfg.max_saved_flows whole flows

  abbrev Ready : ℕ → Demux S → Type 0
  Ready p = IsReady cfg.max_saved_flows whole flows p

  scan_transcript-IsSound :
      (a : FlowAddr) (p : ℕ)
      → find same_addr a flows ≡ some p
      → Runs {S = S} Sound (scan_transcript cfg p) (λ _. Sound)
  unfolding scan_transcript
  scan_transcript-IsSound a p found =
      Runs-load p _ (IsSound-alive cfg.max_saved_flows whole flows a p found) (λ t.
        Runs-when _ _
          (λ on.
            Runs-bind (λ _. Sound) _ _
              (Runs-weaken Sound _ (λ d v. v.1)
                (open_file-IsSound cfg cfg.max_saved_flows whole flows a p found))
              (λ ok. Runs-load p _ (IsSound-alive cfg.max_saved_flows whole flows a p found) (λ u.
                Runs-get _ (λ s w.
                  Runs-weaken Sound _ (λ d e. subst Sound (sym e) w.1)
                    (Runs-option u.fd _ _ (λ e. Runs-return tt (λ d v. v))
                      (λ fd e.
                        Runs-option (file_bytes u.flow_pathname s.os) _ _
                          (λ e. Runs-return tt (λ d v. v))
                          (λ b e.
                            Runs-emit-IsSound cfg.max_saved_flows whole flows (scanned b))))))))
          (λ d v. v.1))

  -- The object of `a` is gone.
  abbrev pub Erased : FlowAddr → Demux S → Type 0
  Erased a = IsSound cfg.max_saved_flows whole (erase same_addr a flows)

  delete_object :
      (a : FlowAddr) (p : ℕ)
      → find same_addr a flows ≡ some p
      → Runs {S = S}
          (Ready p)
          (modify (λ d. record d { heap = set_object p none d.heap }))
          (λ _. Erased a)
  delete_object a p found = Runs-modify _ (λ d v.
      delete-IsSound cfg.max_saved_flows whole flows a p d v.sound
        ((v.sound.map_valid.objects a p).0 found) v.closed)

  save_flow-Ready :
      (p : ℕ) (t : Tcpip S)
      → Runs (Ready p) (modify (save_flow cfg.max_saved_flows t)) (λ _. Ready p)
  save_flow-Ready p t = Runs-modify _ (λ d v. record {
    sound = save_flow-IsSound cfg.max_saved_flows whole flows t d v.sound;
    closed =
        ap (λ (e : Demux S). fd_of (e.heap p)) (save_flow_saved cfg.max_saved_flows t d) ∙ v.closed;
  })

  -- What post_process does after it has saved the flow.
  end_object :
      (a : FlowAddr) (p : ℕ) (t : Tcpip S) (b c : Bool) (e f : Event)
      → find same_addr a flows ≡ some p
      → t.fd ≡ none
      → Runs {S = S}
          (Ready p)
          (when b (emit e)
            >> (when c (emit f) >> elim t.fd [
              | none ↦ modify (λ d. record d { heap = set_object p none d.heap })
              | some fd ↦ stop aborted
            ]))
          (λ _. Erased a)
  end_object a p t b c e f found closed =
      Runs-then (Ready p) _ _
        (Runs-when _ _ (λ on. Runs-emit-IsReady cfg.max_saved_flows whole flows p e) (λ d v. v))
        (Runs-then (Ready p) _ _
          (Runs-when _ _ (λ on. Runs-emit-IsReady cfg.max_saved_flows whole flows p f) (λ d v. v))
          (Runs-option t.fd _ _ (λ g. delete_object a p found) (λ fd g. absurd cc)))

  pub post_process-Erased :
      (a : FlowAddr) (p : ℕ)
      → find same_addr a flows ≡ some p
      → Runs Sound (post_process cfg p) (λ _. Erased a)
  unfolding post_process
  post_process-Erased a p found = Runs-then Sound _ _ (scan_transcript-IsSound a p found) (
      Runs-then (Ready p) _ _ (close_file-IsSound cfg cfg.max_saved_flows whole flows a p found) (
        Runs-load p _ (λ d v. IsSound-alive cfg.max_saved_flows whole flows a p found d v.sound)
          (λ t.
            Runs-fact (t.fd ≡ none) _ (λ d v. sym (ap fd_of v.0) ∙ v.1.closed)
              (λ closed.
                Runs-weaken (Ready p) _ (λ d v. v.1)
                  (Runs-then (Ready p) _ _
                    (Runs-when _ _ (λ on. Runs-emit-IsReady cfg.max_saved_flows whole flows p _)
                      (λ d v. v))
                    (Runs-then (Ready p) _ _ (save_flow-Ready p t)
                      (end_object a p t _ _ _ _ found closed)))))))

-- The member takes on the flows that are there.
pub settle-IsSound :
    {S : Type 0} (limit : ℕ) (whole flows : List (FlowAddr × ℕ)) (d : Demux S)
    → IsSound limit whole flows d
    → IsSound limit flows flows (record d { flow_map = flows })
settle-IsSound limit whole flows d v = record {
  map_valid = record {
    objects = v.map_valid.objects;
    distinct = v.map_valid.distinct;
    unborn = v.map_valid.unborn;
  };
  open_valid =
      SameOpen-OpenIsValid d (record d { flow_map = flows }) v.open_valid
        (record { os = refl; open_flows = refl; fds = λ q. refl });
  saved_valid = record { alive = v.saved_valid.alive; bounded = v.saved_valid.bounded };
  at = refl;
}

module _ {S : Type 0} (cfg : Settings) (flows : List (FlowAddr × ℕ)) where
  pub remove_flow-IsSound :
      (a : FlowAddr)
      → Runs {S = S}
          (IsSound cfg.max_saved_flows flows flows)
          (remove_flow cfg a)
          (λ _. IsSound cfg.max_saved_flows (erase same_addr a flows) (erase same_addr a flows))
  unfolding remove_flow find_tcpip
  remove_flow-IsSound a = Runs-get _ (λ s w.
      let gone = erase same_addr a flows in
      let Now = IsSound cfg.max_saved_flows flows flows in
      Runs-weaken Now _ (λ d e. subst Now (sym e) w)
        (Runs-option (find_tcpip a s) _ _
          (λ e. Runs-return tt (λ d v.
            subst (λ m. IsSound cfg.max_saved_flows m m d)
              (sym (erase_absent same_addr a flows (ap (find same_addr a) (sym w.at) ∙ e))) v))
          (λ p e.
            Runs-then (Erased cfg flows flows a) _ _
              (post_process-Erased cfg flows flows a p (ap (find same_addr a) (sym w.at) ∙ e))
              (Runs-modify _ (λ d v.
                subst
                  (λ m.
                    IsSound cfg.max_saved_flows gone gone
                      (record d { flow_map = erase same_addr a m }))
                  (sym v.at) (settle-IsSound cfg.max_saved_flows flows gone d v))))))
