-- ===== src/Demux/Invariant/Data.antt =====
-- src/tcpip.cpp: what is done with the data of a packet keeps the invariant of the demultiplexer.
use tcpflow.Base.{
  ℕ, ◌≡◌, refl, sym, subst, true, Option, none, some, List, [], ◌∷◌, ◌++◌, arith, length, take,
  ◌==◌,
}
use tcpflow.Base.Int.{ℤ}
use tcpflow.Flow.{FlowAddr, same_addr, TimeVal}
use tcpflow.Tcpip.State.{Tcpip, ReconSet, Options}
use tcpflow.Tcpip.File.{OpenFile}
use tcpflow.Tcpip.Store.{place, refuse, store_placed, open_up, move_by, write_packet, Placement}
use tcpflow.Demux.Os.{get_open}
use tcpflow.Demux.State.{Event, Demux, Settings, died, undefined, printed, alert_open, store, emit}
use tcpflow.Demux.Rules.{
  Runs, Runs-return, Runs-stop, Runs-weaken, Runs-if, Runs-option, Runs-bind, Runs-then, Runs-get,
  Runs-load, Runs-modify, Runs-emit, Runs-store, Runs-when,
}
use tcpflow.Demux.Tcp.{
  Segment, need, print_length, print_packet, write_placed, store_segment, take_data,
}
use tcpflow.Base.Maps.{find}
use tcpflow.Demux.Invariant.{
  IsSound-alive, IsSound, IsSound-store, IsSound-counters, Runs-emit-IsSound,
}
use tcpflow.Demux.Invariant.Open.{open_file-IsSound}
use tcpflow.Demux.Invariant.Linked.{IsSound-os, put_open-SameDescs}

-- The address and the descriptor of a flow stay.
pub record Kept {S : Type 0} (t t' : Tcpip S) : Type 0 where
  pub addr : t'.myflow.addr ≡ t.myflow.addr
  pub fd : t'.fd ≡ t.fd

module _ {S : Type 0} (limit : ℕ) (whole flows : List (FlowAddr × ℕ)) where
  -- The invariant holds, and `t` is at `p`.
  abbrev pub At : ℕ → Tcpip S → Demux S → Type 0
  At p t d = (d.heap p ≡ some t) × IsSound limit whole flows d

  pub Runs-store-Kept :
      (p : ℕ) (t t' : Tcpip S)
      → Kept t t'
      → Runs (At p t) (store p t') (λ _. IsSound limit whole flows)
  Runs-store-Kept p t t' k =
      Runs-store p t' (λ d v. IsSound-store limit whole flows p t t' d v.0 k.addr k.fd v.1)

  Runs-emit-At : (p : ℕ) (t : Tcpip S) (e : Event) → Runs (At p t) (emit e) (λ _. At p t)
  Runs-emit-At p t e = Runs-emit e (λ d v. (
    v.0,
    IsSound-counters limit whole flows d.flow_counter d.packet_counter d.unique_id
        (d.events ++ e ∷ []) d v.1,
  ))

module _ {S : Type 0} (R : ReconSet S) where
  store_placed-Kept :
      (opt : Options) (ts : TimeVal) (w : Placement) (q : List ℕ) (delta : ℤ) (t : Tcpip S)
      (o : OpenFile)
      → Kept t (store_placed R opt ts w q delta t o).0
  unfolding store_placed open_up move_by write_packet
  store_placed-Kept opt ts w q delta t o = record { addr = ground (arith); fd = ground (arith) }

module _ {S : Type 0} (cfg : Settings) (limit : ℕ) (whole flows : List (FlowAddr × ℕ)) where
  print_packet-IsSound :
      (a : FlowAddr) (p : ℕ) (q : List ℕ)
      → find same_addr a flows ≡ some p
      → Runs {S = S}
          (IsSound limit whole flows)
          (print_packet cfg p q)
          (λ _. IsSound limit whole flows)
  unfolding print_packet
  print_packet-IsSound a p q found = Runs-load p _ (IsSound-alive limit whole flows a p found) (λ t.
      Runs-option (print_length cfg.opt.max_bytes_per_flow t.last_byte (length q)) _ _
        (λ e. Runs-return tt (λ d v. v.1))
        (λ n e.
          Runs-bind (λ _. At limit whole flows p t) _ _
            (Runs-option _ _ _ (λ e. Runs-stop died tt) (λ s e. Runs-return s (λ d v. v)))
            (λ name.
              Runs-then (At limit whole flows p t) _ _
                (Runs-emit-At limit whole flows p t (printed (take n q)))
                (Runs-store-Kept limit whole flows p t _ (record { addr = refl; fd = refl })))))

  Runs-need :
      (o : Option (List ℕ))
      → Runs {S = S} (IsSound limit whole flows) (need o) (λ _. IsSound limit whole flows)
  Runs-need none = Runs-stop undefined tt
  Runs-need (some q) = Runs-return q (λ d v. v)

module _ {S : Type 0} (R : ReconSet S) (cfg : Settings) (limit : ℕ)
    (whole flows : List (FlowAddr × ℕ)) where
  write_placed-IsSound :
      (a : FlowAddr) (p : ℕ) (g : Segment) (delta : ℤ) (ts : TimeVal) (q : List ℕ)
      → find same_addr a flows ≡ some p
      → Runs
          (IsSound limit whole flows)
          (write_placed R cfg p g delta ts q)
          (λ _. IsSound limit whole flows)
  unfolding write_placed
  write_placed-IsSound a p g delta ts q found =
      Runs-load p _ (IsSound-alive limit whole flows a p found) (λ t. Runs-get _ (λ s w.
        Runs-weaken (At limit whole flows p t) _ (λ d e. subst (At limit whole flows p t) (sym e) w)
          (Runs-option t.fd _ _ (λ e. Runs-return tt (λ d v. v.1))
            (λ fd e.
              Runs-option (get_open fd s.os) _ _ (λ e. Runs-stop undefined tt)
                (λ o e.
                  Runs-option (place cfg.opt.max_bytes_per_flow t (length q) delta) _ _
                    (λ e. Runs-return tt (λ d v. v.1))
                    (λ w e.
                      Runs-then (IsSound limit whole flows) _ _
                        (Runs-store-Kept limit whole flows p t _
                          (store_placed-Kept R cfg.opt ts w q delta t o))
                        (Runs-modify _ (λ d v.
                          IsSound-os limit whole flows _ d (put_open-SameDescs fd _ d.os) v))))))))

  store_segment-IsSound :
      (a : FlowAddr) (p : ℕ) (g : Segment) (delta : ℤ) (ts : TimeVal) (q : List ℕ)
      → find same_addr a flows ≡ some p
      → Runs
          (IsSound limit whole flows)
          (store_segment R cfg p g delta ts q)
          (λ _. IsSound limit whole flows)
  unfolding store_segment refuse
  store_segment-IsSound a p g delta ts q found =
      Runs-load p _ (IsSound-alive limit whole flows a p found) (λ t.
        Runs-if (length q == 0) _ _ (Runs-return tt (λ d v. v.1)) (
          Runs-option (place cfg.opt.max_bytes_per_flow t (length q) delta) _ _
            (λ e. Runs-store-Kept limit whole flows p t _ (record { addr = refl; fd = refl }))
            (λ w e.
              Runs-bind (λ _. IsSound limit whole flows) _ _
                (Runs-weaken (IsSound limit whole flows) _ (λ d v. v.1)
                  (Runs-option t.fd _ _ (λ e. open_file-IsSound cfg limit whole flows a p found)
                    (λ fd e. Runs-return true (λ d v. v))))
                (λ ok.
                  Runs-when _ _ (λ on. write_placed-IsSound a p g delta ts q found) (λ d v. v)))))

  -- The data of a packet is taken with the invariant kept.
  pub take_data-IsSound :
      (a : FlowAddr) (p : ℕ) (g : Segment) (delta : ℤ) (ts : TimeVal)
      → find same_addr a flows ≡ some p
      → Runs
          (IsSound limit whole flows)
          (take_data R cfg p g delta ts)
          (λ _. IsSound limit whole flows)
  unfolding take_data
  take_data-IsSound a p g delta ts found =
      Runs-when _ _
        (λ on.
          Runs-bind (λ _. IsSound limit whole flows) _ _ (Runs-need cfg limit whole flows g.payload)
            (λ q. Runs-if _ _ _ (print_packet-IsSound cfg limit whole flows a p q found) (
              Runs-when _ _
                (λ on. Runs-load p _ (IsSound-alive limit whole flows a p found) (λ t.
                  Runs-then (IsSound limit whole flows) _ _
                    (Runs-weaken (IsSound limit whole flows) _ (λ d v. v.1)
                      (store_segment-IsSound a p g delta ts q found))
                    (Runs-load p _ (IsSound-alive limit whole flows a p found) (λ u.
                      Runs-when _ _
                        (λ on.
                          Runs-weaken (IsSound limit whole flows) _ (λ d v. v.1)
                            (Runs-emit-IsSound limit whole flows (alert_open u.flow_pathname)))
                        (λ d v. v.1)))))
                (λ d v. v))))
        (λ d v. v)
