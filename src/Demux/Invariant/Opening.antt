-- ===== src/Demux/Invariant/Opening.antt =====
-- src/tcpip.cpp: opening and closing of transcripts keeps the invariant of the demultiplexer.
use tcpflow.Base.{
  ℕ, zero, suc, ◌≡◌, refl, sym, ap, subst, ◌∙◌, ◌≢◌, inl, inr, Bool, not, Option, none, some, List,
  [], ◌∷◌, arith, Option-cases,
}
use tcpflow.Base.Maps.{find}
use tcpflow.Flow.{same_addr, FlowAddr}
use tcpflow.OpenFlows
use tcpflow.OpenFlows.{OpenFlows, is_linked}
use tcpflow.OpenFlows.Laws.{Cells, unlinked-it}
use tcpflow.Tcpip.State.{Tcpip}
use tcpflow.Demux.Os.{Opened, opened, failed, eexist, eother, FilePath, open_create}
use tcpflow.Demux.State.{Demux, Settings, done, undefined, out_of_fuel, is_none}
use tcpflow.Demux.Rules.{
  Runs-errno, Runs-opened, Ensures, Runs, Runs-return, Runs-stop, Runs-weaken, Runs-option,
  Runs-bind, Runs-then, Runs-get, Runs-load, Runs-modify, Runs-store, Runs-when,
}
use tcpflow.Demux.Files.{close_file, close_oldest_fd, try_open, retrying_open}
use tcpflow.Demux.Files.Closing.{
  OpenIsValid, fd_of, close_file-Closed, close_file-SameOpen, Closed-OpenIsValid,
}
use tcpflow.Demux.Files.Opening.{try_open-OpenIsValid}
use tcpflow.Demux.Invariant.{
  SameFlows-alive, IsSound-alive, IsReady, IsSpare, SameFlows-refl, SameFlows-store, IsSound,
  SameFlows, SameFlows-IsSound, IsSound-same,
}

front_linked :
    (it : ℕ → Option ℕ) (li : List (ℕ × ℕ)) (q : ℕ)
    → Cells it li
    → (elim li [ [] ↦ none | (c, n) ∷ rest ↦ some n ]) ≡ some q
    → it q ≢ none
front_linked it [] q v e = absurd cc
front_linked it ((c, n) ∷ li) q v e = ground (arith, v.0, e)

-- The front of the list is a flow that is there.
front_alive :
    {S : Type 0} (q : ℕ) (d : Demux S)
    → OpenIsValid d
    → OpenFlows.front d.open_flows ≡ some q
    → d.heap q ≢ none
unfolding OpenFlows.front is_linked
front_alive q d v e h =
    front_linked d.open_flows.it d.open_flows.li q v.valid.cells e
      (unlinked-it q d.open_flows (v.linked q ∙ ap (λ o. not (is_none (fd_of o))) h))

module _ {S : Type 0} (cfg : Settings) (limit : ℕ) (whole flows : List (FlowAddr × ℕ)) where
  close_file-SameFlows :
      (p : ℕ) (c : Demux S)
      → c.heap p ≢ none
      → Runs (SameFlows c) (close_file cfg p) (λ _. SameFlows c)
  unfolding close_file
  close_file-SameFlows p c alive =
      Runs-load p _ (λ d. SameFlows-alive p c d alive)
        (λ t.
          Runs-then (SameFlows c) _ _
            (Runs-option t.fd _ _ (λ e. Runs-return tt (λ d v. v.1))
              (λ fd e.
                Runs-then (SameFlows c) _ _
                  (Runs-store p _ (λ d v. SameFlows-store p t _ c d v.0 refl v.1))
                  (Runs-modify _ (λ d v. record {
                    flow_map = v.flow_map;
                    next_object = v.next_object;
                    saved_flow_map = v.saved_flow_map;
                    saved_flows = v.saved_flows;
                    addrs = v.addrs;
                  }))))
            (Runs-load p _ (λ d. SameFlows-alive p c d alive)
              (λ u.
                Runs-when _ _ (λ on. Runs-store p _ (λ d v. SameFlows-store p u _ c d v.0 refl v.1))
                  (λ d v. v.1))))

  -- Closing a file that is there keeps the invariant and every closed file closed.
  close_file_ends :
      (p : ℕ) (d : Demux S) (t : Tcpip S)
      → d.heap p ≡ some t
      → IsSound limit whole flows d
      → (d' : Demux S) × (close_file cfg p d ≡ done (tt, d'))
        × IsSound limit whole flows d'
        × (fd_of (d'.heap p) ≡ none)
        × ((q : ℕ) → fd_of (d.heap q) ≡ none → fd_of (d'.heap q) ≡ none)
  close_file_ends p d t e v =
      let same = (close_file-SameFlows p d (λ n. cc)).at d (SameFlows-refl d) in
      elim (Option-cases t.fd) [
        | inl h ↦
            let (d', r, c) = close_file-SameOpen cfg p d t e h in
            let s : SameFlows d d' = subst (λ o. Ensures o (λ _ d'. SameFlows d d')) r same in
            (
              d',
              r,
              IsSound-same limit whole flows d d' v s c,
              c.fds p ∙ ap fd_of e ∙ h,
              λ q n. c.fds q ∙ n,
            )
        | inr (fd, h) ↦
            let (d', r, c) = close_file-Closed cfg p fd d t e h in
            let s : SameFlows d d' = subst (λ o. Ensures o (λ _ d'. SameFlows d d')) r same in
            (
              d',
              r,
              SameFlows-IsSound limit whole flows d d' v s
                  (Closed-OpenIsValid p fd d d' c v.open_valid (ap fd_of e ∙ h)),
              ground (arith, c.fds p),
              λ q n. ground (arith, c.fds q, n),
            )
      ]

  close_file-IsReady :
      (p q : ℕ) (d : Demux S)
      → d.heap q ≢ none
      → IsReady limit whole flows p d
      → Ensures (close_file cfg q d) (λ _. IsReady limit whole flows p)
  close_file-IsReady p q d n v = elim (Option-cases (d.heap q)) [
    | inl e ↦ absurd (n e)
    | inr (t, e) ↦
        let (d', r, sound, closed, stays) = close_file_ends q d t e v.sound in
        subst (λ o. Ensures o (λ _. IsReady limit whole flows p)) (sym r)
          (record { sound = sound; closed = stays p v.closed })
  ]

  -- A flow of the map is closed.
  pub close_file-IsSound :
      (a : FlowAddr) (p : ℕ)
      → find same_addr a flows ≡ some p
      → Runs {S = S}
          (IsSound limit whole flows)
          (close_file cfg p)
          (λ _. IsReady limit whole flows p)
  close_file-IsSound a p found = record {
    at = λ d v. elim (Option-cases (d.heap p)) [
      | inl e ↦ absurd (IsSound-alive limit whole flows a p found d v e)
      | inr (t, e) ↦
          let (d', r, sound, closed, stays) = close_file_ends p d t e v in
          subst (λ o. Ensures o (λ _. IsReady limit whole flows p)) (sym r)
            (record { sound = sound; closed = closed })
    ];
  }

  close_oldest_fd-IsReady :
      (p : ℕ)
      → Runs {S = S}
          (IsReady limit whole flows p)
          (close_oldest_fd cfg)
          (λ _. IsReady limit whole flows p)
  unfolding close_oldest_fd
  close_oldest_fd-IsReady p = Runs-get _ (λ s w.
      Runs-option (OpenFlows.front s.open_flows) _ _ (λ e. Runs-stop undefined tt)
        (λ q e. record {
          at = λ d here.
              subst (λ d. Ensures (close_file cfg q d) (λ _. IsReady limit whole flows p))
                (sym here) (close_file-IsReady p q s (front_alive q s w.sound.open_valid e) w);
        }))

  fresh-IsSpare :
      (d : Demux S) (path : FilePath) (excl : Bool) (fd : ℕ)
      → OpenIsValid d
      → (open_create path excl d.os).0 ≡ opened fd
      → IsSpare fd (record d { os = (open_create path excl d.os).1 })
  unfolding open_create
  fresh-IsSpare d path excl fd v e = record {
    held = ground (arith, e);
    spare = λ q h. ground (arith, e, v.held q fd h, v.fresh fd);
  }

  try_open-IsReady :
      (p : ℕ) (path : FilePath) (excl : Bool)
      → Runs {S = S}
          (IsReady limit whole flows p)
          (try_open path excl)
          (λ r d. IsReady limit whole flows p d × ((fd : ℕ) → r ≡ opened fd → IsSpare fd d))
  unfolding try_open
  try_open-IsReady p path excl = record {
    at = λ d v.
        let os' = (open_create path excl d.os).1 in
        let w = (try_open-OpenIsValid cfg path excl d v.sound.open_valid).1 in
        (
          record {
            sound =
                SameFlows-IsSound limit whole flows d (record d { os = os' }) v.sound
                  (record {
                    flow_map = refl;
                    next_object = refl;
                    saved_flow_map = refl;
                    saved_flows = refl;
                    addrs = λ q. refl;
                  })
                  w;
            closed = v.closed;
          },
          λ fd e. fresh-IsSpare d path excl fd v.sound.open_valid e,
        );
  }

  abbrev pub Got : ℕ → Opened → Demux S → Type 0
  Got p r d = IsReady limit whole flows p d × ((fd : ℕ) → r ≡ opened fd → IsSpare fd d)

  pub retrying_open-IsReady :
      (p fuel : ℕ) (path : FilePath) (excl : Bool)
      → Runs {S = S} (IsReady limit whole flows p) (retrying_open cfg fuel path excl) (Got p)
  unfolding retrying_open
  retrying_open-IsReady p zero path excl = Runs-stop out_of_fuel tt
  retrying_open-IsReady p (suc fuel) path excl = Runs-get _ (λ s w.
      Runs-weaken (IsReady limit whole flows p) _
        (λ d e. subst (IsReady limit whole flows p) (sym e) w)
        (Runs-then (IsReady limit whole flows p) _ _
          (Runs-when _ _ (λ on. close_oldest_fd-IsReady p) (λ d v. v))
          (Runs-bind (Got p) _ _ (try_open-IsReady p path excl) (λ r.
            Runs-opened r _ _ (λ fd e. Runs-return (opened fd) (λ d v. subst (λ o. Got p o d) e v))
              (λ e q.
                Runs-errno e _ _ _ (Runs-return (failed eexist) (λ d v. (v.0, λ fd. cc)))
                  (Runs-then (IsReady limit whole flows p) _ _
                    (Runs-weaken (IsReady limit whole flows p) _ (λ d v. v.0)
                      (close_oldest_fd-IsReady p))
                    (retrying_open-IsReady p fuel path excl))
                  (Runs-return (failed eother) (λ d v. (v.0, λ fd. cc))))))))
