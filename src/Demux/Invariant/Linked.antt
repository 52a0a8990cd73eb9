-- ===== src/Demux/Invariant/Linked.antt =====
-- src/tcpip.cpp: a flow that has its file open and linked, and writes to open files.
use tcpflow.Base.{
  ℕ, ◌≡◌, refl, ap, ◌∙◌, ◌↔◌, true, false, not, none, some, List, arith, ◌==◌, if◌then◌else◌,
}
use tcpflow.Flow.{FlowAddr}
use tcpflow.OpenFlows
use tcpflow.OpenFlows.{OpenFlows, is_linked}
use tcpflow.OpenFlows.Laws.{unlinked-it, push_back-IsValid}
use tcpflow.Tcpip.State.{Tcpip}
use tcpflow.Tcpip.File.{OpenFile}
use tcpflow.Demux.Os.{Os, put_open}
use tcpflow.Demux.State.{Demux, set_object, is_none}
use tcpflow.Demux.Files.Closing.{OpenIsValid, fd_of}
use tcpflow.Demux.Invariant.{IsReady, IsSpare, IsSound, SameFlows-IsSound}

-- The same descriptors are open, and the next one is the same.
pub record SameDescs (os os' : Os) : Type 0 where
  pub descs : (k : ℕ) → (os'.descs k ≡ none) ↔ (os.descs k ≡ none)
  pub next_fd : os'.next_fd ≡ os.next_fd

SameDescs-refl : (os : Os) → SameDescs os os
SameDescs-refl os = record { descs = λ k. (λ e. e, λ e. e); next_fd = refl }

pub put_open-SameDescs : (fd : ℕ) (o : OpenFile) (os : Os) → SameDescs os (put_open fd o os)
unfolding put_open
put_open-SameDescs fd o os = record {
  descs = λ k. ground (arith, ap os.descs {x = k} {y = fd});
  next_fd = ground arith;
}

is_linked-push_back :
    (n m : ℕ) (l : OpenFlows)
    → is_linked m (OpenFlows.push_back n l) ≡ (if m == n then true else is_linked m l)
unfolding OpenFlows.push_back is_linked
is_linked-push_back n m l = ground arith

module _ {S : Type 0} (limit : ℕ) (whole flows : List (FlowAddr × ℕ)) where
  -- The files change, and what is open does not.
  pub IsSound-os :
      (os' : Os) (d : Demux S)
      → SameDescs d.os os'
      → IsSound limit whole flows d
      → IsSound limit whole flows (record d { os = os' })
  IsSound-os os' d s v =
      let o = v.open_valid in
      SameFlows-IsSound limit whole flows d (record d { os = os' }) v
        (record {
          flow_map = refl;
          next_object = refl;
          saved_flow_map = refl;
          saved_flows = refl;
          addrs = λ q. refl;
        })
        (record {
          valid = o.valid;
          linked = o.linked;
          held = λ q k h n. o.held q k h ((s.descs k).0 n);
          apart = o.apart;
          fresh = λ k h. (s.descs k).1 (o.fresh k (omega (arith, h, s.next_fd)));
        })

  -- The state in which an object has its file, and is linked.
  abbrev with_file : ℕ → Tcpip S → ℕ → Demux S → Demux S
  with_file p u n d = record d {
    heap = set_object p (some u) d.heap;
    open_flows = OpenFlows.push_back p d.open_flows;
    max_open_flows = n;
  }

  with_file-OpenIsValid :
      (p fd n : ℕ) (u : Tcpip S) (d : Demux S)
      → IsReady limit whole flows p d
      → IsSpare fd d
      → u.fd ≡ some fd
      → OpenIsValid (with_file p u n d)
  with_file-OpenIsValid p fd n u d v w f =
      let o = v.sound.open_valid in
      let l = d.open_flows in
      let off : is_linked p l ≡ false = o.linked p ∙ ap (λ x. not (is_none x)) v.closed in
      let fds : (q : ℕ)
          → fd_of (set_object p (some u) d.heap q)
            ≡ (if q == p then some fd else fd_of (d.heap q)) =
        λ q. ground (arith, f) in
      record {
        valid = push_back-IsValid p l o.valid (unlinked-it p l off);
        linked = λ q. rw (is_linked-push_back p q l, fds q) (ground (arith, o.linked q));
        held = λ q k h n. ground (arith, fds q, h, n, o.held q k, w.held);
        apart =
            λ q r k a b. ground (arith, fds q, fds r, a, b, o.apart q r k, w.spare q, w.spare r);
        fresh = o.fresh;
      }

  pub with_file-IsSound :
      (p fd n : ℕ) (u u' : Tcpip S) (d : Demux S)
      → IsReady limit whole flows p d
      → IsSpare fd d
      → d.heap p ≡ some u
      → u'.myflow.addr ≡ u.myflow.addr
      → u'.fd ≡ some fd
      → IsSound limit whole flows (with_file p u' n d)
  with_file-IsSound p fd n u u' d v w e a f =
      SameFlows-IsSound limit whole flows d (with_file p u' n d) v.sound
        (record {
          flow_map = refl;
          next_object = refl;
          saved_flow_map = refl;
          saved_flows = refl;
          addrs = λ q. ground (arith, e, a, ap d.heap {x = q} {y = p});
        })
        (with_file-OpenIsValid p fd n u' d v w f)
