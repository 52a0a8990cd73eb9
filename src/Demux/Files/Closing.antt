-- ===== src/Demux/Files/Closing.antt =====
-- src/tcpip.cpp: `close_file`, and what the list of open flows has to do with their descriptors.
use tcpflow.Demux.State.{is_none}
use tcpflow.Base.{
  ℕ, ◌≤◌, ◌≡◌, sym, ap, subst, ◌∙◌, ◌≢◌, inl, inr, false, not, Option, none, some, arith, ◌==◌,
  if◌then◌else◌, Option-cases,
}
use tcpflow.OpenFlows
use tcpflow.OpenFlows.{OpenFlows, is_linked}
use tcpflow.OpenFlows.Laws.{IsValid, erase-IsValid}
use tcpflow.Tcpip.State.{Tcpip}
use tcpflow.Demux.State.{monad, stopped, Demux, Settings, done}
use tcpflow.Demux.Files.{Os, close_file}
use tcpflow.Demux.Os.{close}

-- The descriptor of a flow's file.
abbrev pub fd_of : {S : Type 0} → Option (Tcpip S) → Option ℕ
fd_of none = none
fd_of (some t) = t.fd

-- The list of open flows is well formed, and holds exactly the flows whose file is open; each of
-- them has an open descriptor of its own, and the next descriptor is not in use.
pub record OpenIsValid {S : Type 0} (d : Demux S) : Type 0 where
  pub valid : IsValid d.open_flows
  pub linked : (p : ℕ) → is_linked p d.open_flows ≡ not (is_none (fd_of (d.heap p)))
  pub held : (p fd : ℕ) → fd_of (d.heap p) ≡ some fd → d.os.descs fd ≢ none
  pub apart : (p q fd : ℕ) → fd_of (d.heap p) ≡ some fd → fd_of (d.heap q) ≡ some fd → p ≡ q
  pub fresh : (fd : ℕ) → d.os.next_fd ≤ fd → d.os.descs fd ≡ none

-- `d'` is `d` less the open file of `p`.
pub record Closed {S : Type 0} (p fd : ℕ) (d d' : Demux S) : Type 0 where
  pub os : d'.os ≡ close fd d.os
  pub open_flows : d'.open_flows ≡ OpenFlows.erase p d.open_flows
  pub fds : (q : ℕ) → fd_of (d'.heap q) ≡ (if q == p then none else fd_of (d.heap q))

-- `d'` has the open files of `d`.
pub record SameOpen {S : Type 0} (d d' : Demux S) : Type 0 where
  pub os : d'.os ≡ d.os
  pub open_flows : d'.open_flows ≡ d.open_flows
  pub fds : (q : ℕ) → fd_of (d'.heap q) ≡ fd_of (d.heap q)

pub is_linked-erase :
    (n m : ℕ) (l : OpenFlows)
    → is_linked m (OpenFlows.erase n l) ≡ (if m == n then false else is_linked m l)
unfolding OpenFlows.erase OpenFlows.reset is_linked
is_linked-erase n m l = ground (arith, ap l.it {x = m} {y = n})

descs-close : (fd k : ℕ) (os : Os) → k ≢ fd → (close fd os).descs k ≡ os.descs k
unfolding close
descs-close fd k os n = ground arith

fresh-close :
    (fd k : ℕ) (os : Os)
    → (os.next_fd ≤ k → os.descs k ≡ none)
    → (close fd os).next_fd ≤ k
    → (close fd os).descs k ≡ none
unfolding close
fresh-close fd k os h l = ground arith

pub SameOpen-OpenIsValid :
    {S : Type 0} (d d' : Demux S) → OpenIsValid d → SameOpen d d' → OpenIsValid d'
SameOpen-OpenIsValid d d' v c = record {
  valid = subst IsValid (sym c.open_flows) v.valid;
  linked = λ q. rw (c.open_flows, c.fds q) (v.linked q);
  held = λ q k e. rw c.os (v.held q k (sym (c.fds q) ∙ e));
  apart = λ q r k e f. v.apart q r k (sym (c.fds q) ∙ e) (sym (c.fds r) ∙ f);
  fresh = λ k. rw c.os (v.fresh k);
}

module _ {S : Type 0} (p fd : ℕ) (d d' : Demux S) (c : Closed p fd d d') where
  Closed-fds : (q k : ℕ) → fd_of (d'.heap q) ≡ some k → (fd_of (d.heap q) ≡ some k) × (q ≢ p)
  Closed-fds q k e = ground (arith, c.fds q)

  pub Closed-OpenIsValid : OpenIsValid d → fd_of (d.heap p) ≡ some fd → OpenIsValid d'
  Closed-OpenIsValid v h = record {
    valid = subst IsValid (sym c.open_flows) (erase-IsValid p d.open_flows v.valid);
    linked = λ q.
        rw (c.open_flows, is_linked-erase p q d.open_flows, c.fds q) (ground (arith, v.linked q));
    held = λ q k e.
        let (e', n) = Closed-fds q k e in
        rw (c.os, descs-close fd k d.os (λ s. n (v.apart q p k e' (h ∙ ap some (sym s)))))
          (v.held q k e');
    apart = λ q r k e f. v.apart q r k (Closed-fds q k e).0 (Closed-fds r k f).0;
    fresh = λ k. rw c.os (fresh-close fd k d.os (v.fresh k));
  }

module _ {S : Type 0} (cfg : Settings) where
  pub close_file-Closed :
      (p fd : ℕ) (d : Demux S) (t : Tcpip S)
      → d.heap p ≡ some t
      → t.fd ≡ some fd
      → (d' : Demux S) × (close_file cfg p d ≡ done (tt, d')) × Closed p fd d d'
  unfolding monad close_file
  close_file-Closed p fd d t e h = (
    elim (close_file cfg p d) [ stopped s ↦ d | done (a, d') ↦ d' ],
    ground arith,
    record { os = ground arith; open_flows = ground arith; fds = λ q. ground arith },
  )

  pub close_file-SameOpen :
      (p : ℕ) (d : Demux S) (t : Tcpip S)
      → d.heap p ≡ some t
      → t.fd ≡ none
      → (d' : Demux S) × (close_file cfg p d ≡ done (tt, d')) × SameOpen d d'
  unfolding monad close_file
  close_file-SameOpen p d t e h = (
    elim (close_file cfg p d) [ stopped s ↦ d | done (a, d') ↦ d' ],
    ground arith,
    record { os = ground arith; open_flows = ground arith; fds = λ q. ground arith },
  )

  -- Closing the file of a flow that is there, open or not, returns, and leaves the open flows valid
  -- and the flow not among them.
  pub close_file-OpenIsValid :
      (p : ℕ) (d : Demux S) (t : Tcpip S)
      → OpenIsValid d
      → d.heap p ≡ some t
      → (d' : Demux S) × (close_file cfg p d ≡ done (tt, d'))
        × OpenIsValid d'
        × (is_linked p d'.open_flows ≡ false)
  close_file-OpenIsValid p d t v e = elim (Option-cases t.fd) [
    | inl h ↦
        let (d', r, c) = close_file-SameOpen p d t e h in
        (
          d',
          r,
          SameOpen-OpenIsValid d d' v c,
          rw c.open_flows
              (v.linked p ∙ ap (λ o. not (is_none (fd_of o))) e ∙ ap (λ o. not (is_none o)) h),
        )
    | inr (fd, h) ↦
        let (d', r, c) = close_file-Closed p fd d t e h in
        (
          d',
          r,
          Closed-OpenIsValid p fd d d' c v (ap fd_of e ∙ h),
          rw (c.open_flows, is_linked-erase p p d.open_flows) (ground arith),
        )
  ]
