-- ===== src/Demux/Invariant/Open.antt =====
-- src/tcpip.cpp: tcpip::open_file keeps the invariant of the demultiplexer.
use tcpflow.Base.Word.{add32}
use tcpflow.Base.{
  ℕ, zero, suc, ◌≡◌, refl, sym, ap, subst, ◌∙◌, true, false, Option, none, some, List, length, ◌==◌,
}
use tcpflow.Base.Maps.{find}
use tcpflow.Flow.{same_addr, FlowAddr, Flow}
use tcpflow.Filename.{filename}
use tcpflow.OpenFlows
use tcpflow.OpenFlows.{OpenFlows, is_linked}
use tcpflow.Tcpip.State.{Tcpip}
use tcpflow.Tcpip.File.{OpenFile}
use tcpflow.Demux.Os.{Opened, opened, failed, get_open, put_open}
use tcpflow.Demux.State.{modify, return, ◌>>◌, store, Demux, Settings, died, out_of_fuel}
use tcpflow.Demux.Rules.{
  Runs, Runs-return, Runs-stop, Runs-weaken, Runs-if, Runs-option, Runs-bind, Runs-then, Runs-get,
  Runs-load, Runs-modify, Runs-store, Runs-when, Runs-opened, Runs-errno,
}
use tcpflow.Demux.Files.{new_filename, open_transcript, open_file, open_rounds, name_tries}
use tcpflow.Demux.Files.Closing.{fd_of}
use tcpflow.Demux.Invariant.{IsSound-alive, IsReady, IsSpare, IsSound, IsSound-store}
use tcpflow.Demux.Invariant.Opening.{Got, retrying_open-IsReady}
use tcpflow.Demux.Invariant.Linked.{put_open-SameDescs, IsSound-os, with_file-IsSound}

module _ {S : Type 0} (cfg : Settings) (limit : ℕ) (whole flows : List (FlowAddr × ℕ)) where
  abbrev Holds : ℕ → ℕ → Demux S → Type 0
  Holds p fd d = IsReady limit whole flows p d × IsSpare fd d

  new_filename-IsReady :
      (p fuel count : ℕ) (f : Flow)
      → Runs {S = S}
          (IsReady limit whole flows p)
          (new_filename cfg fuel count f)
          (λ r. Holds p r.1)
  unfolding new_filename
  new_filename-IsReady p zero count f = Runs-stop out_of_fuel tt
  new_filename-IsReady p (suc fuel) count f =
      Runs-option (filename cfg.naming f count false) _ _ (λ e. Runs-stop died tt)
        (λ name e. Runs-get _ (λ s w.
          Runs-weaken (IsReady limit whole flows p) _
            (λ d e. subst (IsReady limit whole flows p) (sym e) w)
            (Runs-bind (Got cfg limit whole flows p) _ _
              (retrying_open-IsReady cfg limit whole flows p (open_rounds s) name true)
              (λ r.
                Runs-opened r _ _ (λ fd e. Runs-return (name, fd) (λ d v. (v.0, v.1 fd e)))
                  (λ e q.
                    Runs-weaken (IsReady limit whole flows p) _ (λ d v. v.0)
                      (Runs-errno e _ _ _ (new_filename-IsReady p fuel (add32 count 1) f)
                        (Runs-stop died tt) (Runs-stop died tt)))))))

  -- With the object linked, the invariant holds; after a failure it holds as it is.
  abbrev Pending : ℕ → Opened → Demux S → Type 0
  Pending p (opened fd) d =
      (n : ℕ)
      → IsSound limit whole flows
          (record d { open_flows = OpenFlows.push_back p d.open_flows; max_open_flows = n })
  Pending p (failed e) d = IsSound limit whole flows d

  fill_file :
      (p fd : ℕ) (u u' : Tcpip S)
      → u'.myflow.addr ≡ u.myflow.addr
      → u'.fd ≡ some fd
      → Runs
          (λ (d : Demux S). (d.heap p ≡ some u) × Holds p fd d)
          (store p u' >> return (opened fd))
          (Pending p)
  fill_file p fd u u' a f =
      Runs-then (Pending p (opened fd)) _ _
        (Runs-store p u'
          (λ d v n. with_file-IsSound limit whole flows p fd n u u' d v.1.0 v.1.1 v.0 a f))
        (Runs-return (opened fd) (λ d v. v))

  seek_file :
      (p fd k : ℕ) (u : Tcpip S) (o : Option OpenFile) (d : Demux S)
      → (d.heap p ≡ some u) × Holds p fd d
      → let d' : Demux S = elim o [
        | none ↦ d
        | some o ↦ record d { os = put_open fd (record o { offset = k }) d.os }
      ] in
        (d'.heap p ≡ some u) × Holds p fd d'
  seek_file p fd k u none d v = v
  seek_file p fd k u (some o) d v =
      let s = put_open-SameDescs fd (record o { offset = k }) d.os in
      (
        v.0,
        (
          record { sound = IsSound-os limit whole flows _ d s v.1.0.sound; closed = v.1.0.closed },
          record { held = λ n. v.1.1.held ((s.descs fd).0 n); spare = v.1.1.spare },
        ),
      )

  open_transcript-Pending :
      (a : FlowAddr) (p : ℕ) (t : Tcpip S)
      → find same_addr a flows ≡ some p
      → Runs {S = S} (IsReady limit whole flows p) (open_transcript cfg p t) (Pending p)
  unfolding open_transcript
  open_transcript-Pending a p t found = Runs-get _ (λ s w.
      Runs-weaken (IsReady limit whole flows p) _
        (λ d e. subst (IsReady limit whole flows p) (sym e) w)
        (Runs-if (length t.flow_pathname == 0) _ _
          (Runs-bind (λ r. Holds p r.1) _ _ (new_filename-IsReady p (name_tries s) 0 t.myflow)
            (λ r.
              Runs-load p _ (λ d v. IsSound-alive limit whole flows a p found d v.0.sound)
                (λ u. fill_file p r.1 u _ refl refl)))
          (Runs-bind (Got cfg limit whole flows p) _ _
            (retrying_open-IsReady cfg limit whole flows p (open_rounds s) t.flow_pathname false)
            (λ r.
              Runs-opened {P = Got cfg limit whole flows p r} r _ _
                (λ fd e.
                  Runs-weaken (Holds p fd) _ (λ d v. (v.0, v.1 fd e))
                    (Runs-load p _ (λ d v. IsSound-alive limit whole flows a p found d v.0.sound)
                      (λ u.
                        Runs-then (λ d. (d.heap p ≡ some u) × Holds p fd d) _ _
                          (Runs-modify _ (λ d v. seek_file p fd t.pos u (get_open fd d.os) d v))
                          (fill_file p fd u _ refl refl))))
                (λ e q. Runs-return (failed e) (λ d v. v.0.sound))))))

  link_file :
      (p fd : ℕ) (n : Demux S → ℕ)
      → Runs
          (Pending p (opened fd))
          (modify (λ d. record d {
            open_flows = OpenFlows.push_back p d.open_flows;
            max_open_flows = n d;
          }))
          (λ _. IsSound limit whole flows)
  link_file p fd n = Runs-modify _ (λ d v. v (n d))

  pub open_file-IsSound :
      (a : FlowAddr) (p : ℕ)
      → find same_addr a flows ≡ some p
      → Runs {S = S} (IsSound limit whole flows) (open_file cfg p) (λ _. IsSound limit whole flows)
  unfolding open_file
  open_file-IsSound a p found = Runs-load p _ (IsSound-alive limit whole flows a p found) (λ t.
      Runs-bind (λ _. IsSound limit whole flows) _ _
        (Runs-option t.fd _ _
          (λ e.
            Runs-bind (Pending p) _ _
              (Runs-weaken (IsReady limit whole flows p) _
                (λ d v. record { sound = v.1; closed = ap fd_of v.0 ∙ e })
                (open_transcript-Pending a p t found))
              (λ r.
                Runs-opened r _ _
                  (λ fd e.
                    Runs-then (IsSound limit whole flows) _ _
                      (Runs-weaken (Pending p (opened fd)) _ (λ d v. subst (λ r. Pending p r d) e v)
                        (link_file p fd _))
                      (Runs-return true (λ d v. v)))
                  (λ e q. Runs-return false (λ d v. subst (λ r. Pending p r d) q v))))
          (λ fd e. Runs-return true (λ d v. v.1)))
        (λ ok. Runs-load p _ (IsSound-alive limit whole flows a p found) (λ u.
          Runs-then (IsSound limit whole flows) _ _
            (Runs-when _ _
              (λ on.
                Runs-store p _ (λ d v. IsSound-store limit whole flows p u _ d v.0 refl refl v.1))
              (λ d v. v.1))
            (Runs-return ok (λ d v. v)))))
